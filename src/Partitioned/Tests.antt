-- ===== src/Partitioned/Tests.antt =====
-- The partitioned event loop on small examples.
use nginz.Prelude.{◌≡◌, refl, some, List, [], ◌∷◌, arith}
use nginz.EventLoop.{EventLoop}
use nginz.Partitioned
use nginz.Partitioned.{Partitions}
use nginz.Partitioned.Equivalence.{
  Op, register, unregister, compact, poll_run, part_run, Agree, IsCounted, part_run-poll_run,
}

abbrev no_entries : EventLoop
no_entries = record {
  internal_fds = λ i. record { fd = 0; events = 0; revents = 0 };
  internal_callback = λ i. record { on_event = 0; event_data = 0 };
  internal_nfds = 0;
}

abbrev no_tables : Partitions
no_tables = record { edata = λ part. no_entries; grand_nfds = 0 }

-- Two descriptors of the same table and one of another; the first goes again.
abbrev few_ops : List Op
few_ops =
    register 5 50 60 1 ∷ register 13 51 61 1 ∷ register 6 52 62 1 ∷ unregister 5 ∷ compact ∷ []

part_run-poll_run_example :
    (a : EventLoop) × (b : Partitions) × (poll_run few_ops no_entries ≡ some a)
    × (part_run few_ops (Partitioned.event_loop_module_init no_tables) ≡ some b)
    × Agree a b
    × IsCounted b
part_run-poll_run_example = part_run-poll_run few_ops no_entries no_tables refl (omega arith)
