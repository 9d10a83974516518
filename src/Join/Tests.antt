-- ===== src/Join/Tests.antt =====
-- The hand-over of a user on a small example.
use nginz.Prelude.{◌≡◌, refl, Bool, true, false, some, [], ◌∷◌, arith}
use nginz.Xtring.Plain.{PlainTxt, plain, plain_xtring}
use nginz.Scanner.{is_delim}
use nginz.Scanner.Cut.{IsToken}
use nginz.Join.{JoinHooks, transfer_command, chat_hiddenjoin_plug}
use nginz.Join.Transfer.{chat_hiddenjoin_plug-transfer_command}

-- The state notes the name, the room and whether the user is logged in.
pub record User : Type 0 where
  pub name : PlainTxt
  pub room : PlainTxt
  pub is_logged_in : Bool

abbrev one_process : JoinHooks plain_xtring User
one_process = record {
  getpid = 100;
  name = λ s. s.name;
  set_name = λ x s. record s { name = x };
  set_logged_in = λ s. record s { is_logged_in = true };
  set_soft_quit = λ s. s;
  broadcast_room_leave = λ s. some s;
  broadcast_room_join = λ x s. some (record s { room = x });
  unregister = λ s. s;
  transfer_parallel = λ pid x s. s;
  send = λ info s. s;
  lazy_cleanup = λ s. some s;
  chat_room_get_pid = λ x s. some s;
}

abbrev nobody : User
nobody = record { name = plain [] 0; room = plain [] 0; is_logged_in = false }

-- "ONE" and "bo"
abbrev room : PlainTxt
room = plain (79 ∷ 78 ∷ 69 ∷ []) 32

abbrev name : PlainTxt
name = plain (98 ∷ 111 ∷ []) 32

room-IsToken : IsToken room.content
unfolding is_delim
room-IsToken = ((refl, (refl, (refl, tt))), omega arith)

name-IsToken : IsToken name.content
unfolding is_delim
name-IsToken = ((refl, (refl, tt)), omega arith)

chat_hiddenjoin_plug-transfer_command_example :
    (r n : PlainTxt) × (chat_hiddenjoin_plug plain_xtring one_process
        (transfer_command plain_xtring (plain [] 128) room name)
        nobody
      ≡ some (record { name = n; room = r; is_logged_in = true }))
    × (r.content ≡ room.content)
    × (n.content ≡ name.content)
chat_hiddenjoin_plug-transfer_command_example =
    chat_hiddenjoin_plug-transfer_command plain_xtring one_process (plain [] 128) room name nobody
      refl (omega arith) room-IsToken name-IsToken
