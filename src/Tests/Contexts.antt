-- ===== src/Tests/Contexts.antt =====
-- machine/toc.cc with two threads.
use mpstu_bs.Prelude.{refl, List, [], ◌∷◌, arith}
use mpstu_bs.Thread.Context.{Toc, Context}
use mpstu_bs.Thread.Context.Kickoff.{Born, threads, AllEnter, threads-AllEnter}

abbrev zeroes : Toc
zeroes = record { ebx = 0; esi = 0; edi = 0; ebp = 0; esp = 0 }

abbrev booted : Context
booted = record { registers = zeroes; eip = 0; memory = λ a. 0; regs = λ t. zeroes }

-- Two stacks of 4096 bytes.
abbrev applications : List Born
applications = record { this = 5; tos = 0x8ffc } ∷ record { this = 6; tos = 0x9ffc } ∷ []

threads-AllEnter_example :
    AllEnter 0x1000 0x2000 (threads 0x1000 0x2000 applications booted) applications
threads-AllEnter_example =
    threads-AllEnter 0x1000 0x2000 applications booted
      (omega arith, (refl, tt), (omega arith, tt, tt))
