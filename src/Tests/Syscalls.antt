-- ===== src/Tests/Syscalls.antt =====
-- syscall/guarded_scheduler.h at a concrete state.
use mpstu_bs.Prelude.{◌≡◌, refl, false, none, some, [], ◌∷◌, arith}
use mpstu_bs.Syscall.{Kernel}
use mpstu_bs.Tests.Guards.{quiet, quiet-IsValid, no_gates, always, ne}
use mpstu_bs.Tests.Threads.{some_state, ready-IsQueue}
use mpstu_bs.Thread.Dispatcher.{State, switched}
use mpstu_bs.Thread.Scheduler.{resume}
use mpstu_bs.Thread.Scheduler.Pick.{resume-Runs}
use mpstu_bs.Guard as Guard
use mpstu_bs.Guard.{leave}
use mpstu_bs.Syscall.{handed, guarded_resume}
use mpstu_bs.Syscall.Handover.{guarded_resume-handed}

abbrev kernel : Kernel
kernel = record { guard = quiet; threads = some_state }

-- The core 0 leaves the thread 9 for the thread 5; the gate 6 comes in meanwhile.
next_thread : (t : State) × (resume 4 0 some_state ≡ switched 9 5 t)
unfolding mpstu_bs.Thread.Scheduler.Pick.living_from
next_thread =
    let r =
      resume-Runs 4 0 some_state (5 ∷ 6 ∷ []) ready-IsQueue (ne 9 (omega arith)) refl
        (omega arith) in
    (r.0, r.1)

guarded_resume-handed_example :
    (g : Guard.State) × (guarded_resume always 7 8 4 5 (6 ∷ []) [] 0 4 kernel
      ≡ handed 9 5 (record { guard = g; threads = next_thread.0 }))
    × (g.s_lock ≡ some 0)
    × (g' : Guard.State) × (leave always 5 [] 0 g ≡ some g')
    × (g'.s_lock ≡ none)
    × (g'.flag 0 ≡ false)
guarded_resume-handed_example =
    guarded_resume-handed always 0 (omega arith) 7 8 4 5 (6 ∷ []) [] 4 9 5 next_thread.0 kernel
      no_gates quiet-IsValid refl next_thread.1 (λ a i. ground arith) tt (omega arith)
