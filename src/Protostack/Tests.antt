-- ===== src/Protostack/Tests.antt =====
-- The registry of protocols on small examples.
use nginz.Prelude.{ℕ, ◌+◌, ◌≡◌, refl, ◌≢◌, true, some, arith, ◌==◌, if◌then◌else◌}
use nginz.Protostack.{Protostack, protostack_init, protostack_get, protostack_set}
use nginz.Protostack.Registry.{IsValid, IsValid-init, or_else, protostack_get-set}

-- A registry with all four places in use.
abbrev four : Protostack
four = record { internal_port_for_stacks = λ i. 80 + i; internal_stacks = λ i. some i }

protostack_get-set_example :
    ((protostack_set 9399 (some 3) protostack_init).0 ≡ true)
    × IsValid (protostack_set 9399 (some 3) protostack_init).1
    × ((q : ℕ)
        → q ≢ 0
        → protostack_get q (protostack_set 9399 (some 3) protostack_init).1 ≡ (
            if 9399 == q
            then or_else (protostack_get q protostack_init) (some 3)
            else protostack_get q protostack_init))
unfolding protostack_init
protostack_get-set_example =
    protostack_get-set protostack_init 9399 3 IsValid-init refl (omega arith)
