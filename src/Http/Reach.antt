-- ===== src/Http/Reach.antt =====
-- What a request of a client makes happen: the call of a plugin, or a reply.
use nginz.Prelude.{ℕ, Bool, List, [], ◌∷◌, ◌++◌, ◌==◌, if◌then◌else◌, get_or}
use nginz.Xtring.{Xtring}
use nginz.Http.Connection.{Web, with_http}
use nginz.Http.Handle.{Reply, it_works, not_found}

-- A plugin is called, under its name and with the content of the request, or a text is sent.
pub data Event : Type 0 where
  called : List ℕ → List ℕ → Event
  replied : Reply → Event

abbrev pub note_reply : {A : Type 0} → A → Reply → List Event → List Event
note_reply http r log = log ++ replied r ∷ []

-- "http", and the target as a path.
abbrev pub name_of : List ℕ → List ℕ
name_of [] = 104 ∷ 116 ∷ 116 ∷ 112 ∷ 47 ∷ []
name_of (c ∷ l) =
    if c == 47 then 104 ∷ 116 ∷ 116 ∷ 112 ∷ 47 ∷ l else 104 ∷ 116 ∷ 116 ∷ 112 ∷ 47 ∷ c ∷ l

-- A target with a '_' as its sixth character gets a text, and any other one the plugin of its name,
-- behind which a text follows if no plugin has processed the request.
abbrev pub events : (List ℕ → Bool) → List ℕ → List ℕ → List Event
events process target body =
    if get_or target 5 0 == 95
    then replied it_works ∷ []
    else called (name_of target) body
      ∷ (if process (name_of target) then [] else replied not_found ∷ [])

module _ (X : Xtring) where
  open X use {Txt, bytes, of_bytes, char_at}

  -- The plugins note their call, and say whether they have processed it.
  abbrev pub note_call : (List ℕ → Bool) → List ℕ → Web X × List Event → ℕ × (Web X × List Event)
  note_call process name (s, log) = (
    0,
    (
      with_http X (record s.http { is_processed = process name }) s,
      log ++ called name (bytes s.http.content) ∷ [],
    ),
  )
