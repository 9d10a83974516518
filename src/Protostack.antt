-- ===== src/Protostack.antt =====
-- net/src/protostack.c: the protocols by port. A `struct protostack*` is named by a number, and
-- `none` is NULL.
mod Registry
mod Tests
use nginz.Prelude.{
  ℕ, zero, suc, ◌+◌, ◌-◌, Bool, true, false, not, Option, none, some, ◌==◌, if◌then◌else◌, Array,
  update, find_first,
}

abbrev pub max_proto : ℕ
max_proto = 4

pub record Protostack : Type 0 where
  pub internal_port_for_stacks : Array ℕ
  pub internal_stacks : Array (Option ℕ)

abbrev pub is_null : Option ℕ → Bool
is_null none = true
is_null (some x) = false

pub protostack_init : Protostack
protostack_init = record { internal_port_for_stacks = λ i. 0; internal_stacks = λ i. none }

unfoldable pub stack_at : Protostack → Option ℕ → Option ℕ
stack_at s none = none
stack_at s (some i) = s.internal_stacks i

unfoldable pub protostack_get : ℕ → Protostack → Option ℕ
unfolding stack_at
protostack_get port s =
    stack_at s (find_first (λ i. s.internal_port_for_stacks i == port) max_proto)

fill : ℕ → Option ℕ → Protostack → Option ℕ → Protostack
fill port x s none = s
fill port x s (some i) = record {
  internal_port_for_stacks = update s.internal_port_for_stacks i port;
  internal_stacks = update s.internal_stacks i x;
}

-- The `Bool` is the result, `true` for 0 and `false` for -1.
pub protostack_set : ℕ → Option ℕ → Protostack → Bool × Protostack
unfolding fill
protostack_set port x s =
    if not (is_null (s.internal_stacks (max_proto - 1)))
    then (false, s)
    else (true, fill port x s (find_first (λ i. is_null (s.internal_stacks i)) max_proto))

-- The output array, written from the first stack up to the first free place.
ports_loop : Protostack → ℕ → ℕ → Array ℕ → Array ℕ
ports_loop s zero i tcp_ports = tcp_ports
ports_loop s (suc n) i tcp_ports =
    let rest = ports_loop s n (i + 1) (update tcp_ports i (s.internal_port_for_stacks i)) in
    if is_null (s.internal_stacks i) then tcp_ports else rest

pub protostack_get_ports_internal : Protostack → Array ℕ → Array ℕ
protostack_get_ports_internal s tcp_ports = ports_loop s max_proto 0 tcp_ports
