-- ===== src/Thread/Context.antt =====
-- machine/toc.h, machine/toc.cc, machine/toc.asm and the constructor of thread/thread.cc: how the
-- registers and the stack of a thread are prepared, and how a core takes them.
pub mod Kickoff
use mpstu_bs.Prelude.{ℕ, ◌+◌, ◌-◌, ◌==◌, if◌then◌else◌}
use mpstu_bs.Object.Queue.{Ptr}

-- `struct toc`
pub record Toc : Type 0 where
  pub ebx : ℕ
  pub esi : ℕ
  pub edi : ℕ
  pub ebp : ℕ
  pub esp : ℕ

-- The registers of a core, the words of the stacks, and the `regs` of the threads.
pub record Context : Type 0 where
  pub registers : Toc
  pub eip : ℕ
  pub memory : ℕ → ℕ
  pub regs : Ptr → Toc

abbrev pub store : ℕ → ℕ → Context → Context
store address word c = record c { memory = λ a. if a == address then word else c.memory a }

-- `toc_settle`; a word of the stack has four bytes.
unfoldable pub toc_settle : Ptr → ℕ → ℕ → ℕ → Ptr → Context → Context
toc_settle thread tos kickoff enterpanic object c =
    let c1 = store (tos - 8) kickoff (store (tos - 4) enterpanic (store tos object c)) in
    record c1 {
      regs =
          λ t. if t == thread then record (c1.regs t) { ebp = tos; esp = tos - 8 } else c1.regs t;
    }

-- The constructor of Thread
abbrev pub thread : ℕ → ℕ → Ptr → ℕ → Context → Context
thread kickoff enterpanic this tos c = toc_settle this tos kickoff enterpanic this c

-- `ret`
abbrev pub ret : Context → Context
ret c = record c {
  eip = c.memory c.registers.esp;
  registers = record (c.registers) { esp = c.registers.esp + 4 };
}

unfoldable pub toc_go : Ptr → Context → Context
toc_go t c = ret (record c { registers = c.regs t })

unfoldable pub toc_switch : Ptr → Ptr → Context → Context
toc_switch regs_now reg_then c =
    let c1 = record c { regs = λ t. if t == regs_now then c.registers else c.regs t } in
    ret (record c1 { registers = c1.regs reg_then })
