-- ===== src/AsyncDb/Counter.antt =====
-- Counters that are kept in the table of the master.
use nginz.Prelude.{
  ℕ, ◌<◌, ◌≡◌, refl, ◌∙◌, inl, inr, Bool, true, false, ◌&&◌, Option, none, some, List, [], ◌∷◌,
  arith, ◌==◌, if◌then◌else◌, eq_of_==, Bool-cases, ◌>>=◌, All,
}
use nginz.AsyncDb.{
  Aroop, Field, or_null_hook, is_swap, plus, minus_one, async_db_compare_and_swap, async_db_unset,
  async_db_set_if_null, async_db_increment, master_call,
}
use nginz.AsyncDb.Requests.{wins, async_db_compare_and_swap_lem}

module _ {B : Type 0} (same : B → B → Bool) where
  same_key :
      (win : Bool) (v w : Option B) (k : B)
      → same k k ≡ true
      → (if win && same k k then v else w) ≡ (if win then v else w)
  same_key true v w k e = rw e refl
  same_key false v w k e = refl

  other_key :
      (win : Bool) (v w : Option B) (k l : B)
      → same k l ≡ false
      → (if win && same k l then v else w) ≡ w
  other_key true v w k l e = rw e refl
  other_key false v w k l e = refl

plus_zero :
    (intval increment : ℕ)
    → intval ≡ 0
    → increment < 0x1_0000_0000
    → plus intval increment ≡ increment
plus_zero intval increment e h = omega arith

differ :
    (intval increment : ℕ)
    → (intval == 0) ≡ true
    → (plus intval increment == 0) ≡ false
    → (intval == increment) ≡ false
differ intval increment z nz = ground arith

module _ (A : Aroop) where
  open A use {Txt, is_empty, equals, print_int, null_hook, Table, table_get}

  -- The master takes the messages one after the other.
  unfoldable pub master_calls : ℕ → Table → List (List (Field A)) → Option Table
  master_calls pid db [] = some db
  master_calls pid db (msg ∷ msgs) = do r ← master_call A pid db msg; master_calls pid r.0 msgs

  -- What the table holds for a counter: nothing when it is 0, else the number in print.
  abbrev pub counted : ℕ → Option Txt
  counted n = if n == 0 then none else some (print_int n)

  -- One request of the worker, taken by the master.
  step :
      (pid srcpid cb_token : ℕ) (db : Table) (cb_hook key : Txt) (newval oldval : Option Txt)
      → is_empty key ≡ false
      → is_swap A newval oldval ≡ true
      → is_empty cb_hook ≡ false
      → (msg : List (Field A)) × (db' : Table) × (async_db_compare_and_swap A srcpid cb_token
            (some cb_hook)
            key
            newval
            oldval
          ≡ some msg)
        × ((msgs : List (List (Field A)))
            → master_calls pid db (msg ∷ msgs) ≡ master_calls pid db' msgs)
        × (table_get db' key ≡ (if wins A db key newval oldval then newval else table_get db key))
        × ((k : Txt) → equals key k ≡ false → table_get db' k ≡ table_get db k)
  unfolding master_calls
  step pid srcpid cb_token db cb_hook key newval oldval ke se he =
      let (msg, db', sent, run, get) =
        async_db_compare_and_swap_lem A pid srcpid cb_token db (some cb_hook) key newval oldval ke
          se he in
      (
        msg,
        db',
        sent,
        λ msgs. rw run refl,
        get key
            ∙ same_key equals (wins A db key newval oldval) newval (table_get db key) key
                (A.equals_refl key),
        λ k ne.
            get k ∙ other_key equals (wins A db key newval oldval) newval (table_get db k) key k ne,
      )

  -- Incrementing a counter that the table holds, with `intval` its value: the requests pass the
  -- assertions, and when the master has taken them in order the table holds the sum, and every
  -- other key as before.
  pub async_db_increment_lem :
      (pid srcpid cb_token : ℕ) (db : Table) (cb_hook : Option Txt) (key : Txt)
      (intval increment : ℕ)
      → is_empty key ≡ false
      → is_empty (or_null_hook A cb_hook) ≡ false
      → intval < 0x1_0000_0000
      → increment < 0x1_0000_0000
      → table_get db key ≡ counted intval
      → (msgs : List (List (Field A))) × (db' : Table) × (async_db_increment A srcpid cb_token
            cb_hook key intval increment
          ≡ some msgs)
        × (master_calls pid db msgs ≡ some db')
        × (table_get db' key ≡ counted (plus intval increment))
        × ((k : Txt) → equals key k ≡ false → table_get db' k ≡ table_get db k)
  unfolding master_calls async_db_increment async_db_unset async_db_set_if_null
  async_db_increment_lem pid srcpid cb_token db cb_hook key intval increment ke he li lc now =
      let h = or_null_hook A cb_hook in
      elim (Bool-cases (plus intval increment == 0)) [
        | inl z ↦
            let (msg, db', sent, run, here, others) =
              step pid srcpid minus_one db null_hook key none none ke refl A.null_hook-is_empty in
            (msg ∷ [], db', rw (z, sent) refl, run [], rw z here, others)
        | inr nz ↦ elim (Bool-cases (intval == 0)) [
          | inl z ↦
              let zero_sum : plus intval increment ≡ increment =
                plus_zero intval increment (eq_of_== intval 0 z) lc in
              let (msg, db1, sent, run, here, others) =
                step pid srcpid minus_one db null_hook key (some (print_int increment)) none ke refl
                  A.null_hook-is_empty in
              let (msg', db2, sent', run', here', others') =
                step pid srcpid cb_token db1 h key (some (print_int (plus intval increment)))
                  (some (print_int intval)) ke
                  (rw (A.print_int-is_empty (plus intval increment)) refl) he in
              let first : table_get db1 key ≡ some (print_int increment) =
                here ∙ rw (now, z) refl in
              let lost : equals (print_int intval) (print_int increment) ≡ false =
                A.equals-print_int intval increment li lc ∙ differ intval increment z nz in
              (
                msg ∷ msg' ∷ [],
                db2,
                rw (nz, z, sent, sent') refl,
                run (msg' ∷ []) ∙ run' [],
                rw nz (here' ∙ rw (first, lost, zero_sum) refl),
                λ k ne. others' k ne ∙ others k ne,
              )
          | inr z ↦
              let (msg, db', sent, run, here, others) =
                step pid srcpid cb_token db h key (some (print_int (plus intval increment)))
                  (some (print_int intval)) ke
                  (rw (A.print_int-is_empty (plus intval increment)) refl) he in
              (
                msg ∷ [],
                db',
                rw (nz, z, sent) refl,
                run [],
                rw nz (here ∙ rw (now, z, A.equals_refl) refl),
                others,
              )
        ]
      ]

  -- A caller that increments one counter again and again, each time with the value that it has
  -- reached.
  unfoldable pub increments : ℕ → ℕ → Txt → Table → ℕ → List ℕ → Option Table
  increments pid srcpid key db intval [] = some db
  increments pid srcpid key db intval (increment ∷ rest) = do
    msgs ← async_db_increment A srcpid minus_one none key intval increment
    db' ← master_calls pid db msgs
    increments pid srcpid key db' (plus intval increment) rest

  abbrev pub total : ℕ → List ℕ → ℕ
  total intval [] = intval
  total intval (increment ∷ rest) = total (plus intval increment) rest

  -- Any sequence of 32-bit increments of a counter that the table holds leaves the sum in the
  -- table (removing the key where it is 0), and every other key as before.
  pub async_db_increment-total :
      (pid srcpid : ℕ) (db : Table) (key : Txt) (intval : ℕ) (amounts : List ℕ)
      → is_empty key ≡ false
      → intval < 0x1_0000_0000
      → All (λ n. n < 0x1_0000_0000) amounts
      → table_get db key ≡ counted intval
      → (db' : Table) × (increments pid srcpid key db intval amounts ≡ some db')
        × (table_get db' key ≡ counted (total intval amounts))
        × ((k : Txt) → equals key k ≡ false → table_get db' k ≡ table_get db k)
  unfolding increments
  async_db_increment-total pid srcpid db key intval [] ke li small now =
      (db, refl, now, λ k ne. refl)
  async_db_increment-total pid srcpid db key intval (n ∷ amounts) ke li (ln, small) now =
      let (msgs, db1, sent, run, here, others) =
        async_db_increment_lem pid srcpid minus_one db none key intval n ke A.null_hook-is_empty li
          ln now in
      let (db2, run', here', others') =
        async_db_increment-total pid srcpid db1 key (plus intval n) amounts ke (omega arith) small
          here in
      (db2, rw (sent, run) run', here', λ k ne. others' k ne ∙ others k ne)
