-- ===== src/Lib.antt =====
-- MPStuBS is a small multiprocessor operating system for PCs. Its processors share one kernel: the
-- applications' threads (thread/) call the kernel through guarded system calls (syscall/), interrupts
-- come in through the plugbox and are split into prologues and epilogues (guard/), and drivers
-- (device/) stand on the classes next to the hardware (machine/). Intrusive queues, buffers and text
-- streams (object/) and 64-bit arithmetic (utils/) serve all of them.
--
-- The files and what they model:
-- - Object/Queue.antt: object/queue.h and object/queuelink.h. `Heap` holds the `head` and `next`
--   pointers in slots and the `tail` of each queue, which points to a slot; `enqueue`, `dequeue`,
--   `remove`, `insert_first`, `insert_after`, `first` and `next` are the methods of the class.
--   Object/Queue/Chain.antt says what list a queue stands for (`IsQueue`), and its siblings relate
--   each method to that list.
-- - Object/BBuffer.antt: object/bbuffer.h. `produce` and `consume` on the ring with one free place.
-- - Object/OStream.antt: object/strbuf.h, object/strbuf.cc, object/o_stream.h and object/o_stream.cc,
--   with `flush` as device/cgastr.cc writes it; the device is a parameter.
-- - Utils/Math.antt: utils/math.h. The two loops of `div64` have fuel for 65 and 66 rounds: a divisor
--   of 64 bits that is not 0 is aligned after at most 63 shifts, and the bit that follows is shifted
--   out after at most 64.
-- - Machine/Ticketlock.antt: machine/ticketlock.h, as steps of single shared accesses.
-- - Machine/Key.antt, Machine/KeyPort.antt and Machine/KeyDecoder.antt: machine/key.h,
--   machine/keyctrl.h, machine/keyctrl.cc, machine/io_port.h, machine/keydecoder.h and
--   machine/keydecoder.cc. The hardware is the list of what its ports will be read as; a read that is
--   never answered has no result, and neither has a read behind the end of a table.
-- - Machine/KeyHit.antt: the constructor and `key_hit` of machine/keyctrl.cc.
-- - Machine/CgaScreen.antt: machine/cgascr.h and machine/cgascr.cc. The memory of the screen is a
--   function from places to cells; the loop of `print` has fuel, and more than four rounds for each
--   character are enough, since a tab takes at most four.
-- - Machine/Plugbox.antt: machine/plugbox.h and machine/plugbox.cc.
-- - Machine/Spinlock.antt: machine/spinlock.h and `set_queued` of guard/gate.h, as steps of single
--   accesses to the lock and the flag of a gate.
-- - Machine/LapicTimer.antt and Machine/Lapic.antt: machine/lapic.h, machine/lapic.cc and
--   machine/lapic_registers.h. What the hardware answers to the reads of the command register, the
--   counter and the interval timer are lists; a wait that outlasts its list has no result.
-- - Machine/Ioapic.antt: machine/ioapic.h, machine/ioapic.cc and machine/ioapic_registers.h. Its
--   children give the entries of the redirection table as records of their bit fields.
-- - Machine/SystemConfig.antt, Machine/Acpi.antt, Machine/MpTable.antt and Machine/System.antt:
--   machine/apicsystem.h, machine/apicsystem.cc, machine/acpi.h, machine/acpi.cc and
--   machine/mp_registers.h. The memory of the firmware is a function from addresses to bytes, and
--   addresses do not wrap. `RSDP::find` and the loop over a MADT have the length of what they go
--   through as fuel, since each step goes on by a byte at least. The fuel of `read_mpct` is an
--   argument, and more than the length of the table is enough; its loop does not end at an entry of an
--   unknown type, which is the missing result.
--   Machine/System/Boot.antt is the start of the other processors: `bootCPU`, `setupThisProcessor` and
--   `sendCustomIPI`. Members of a message that the code leaves unassigned are an argument.
--   Machine/System/Detect.antt joins the parts of the detection, Machine/System/Relocate.antt is
--   `copySetupAPtoLowMem` and Machine/System/Model.antt `getCPUModel`.
-- - Thread/Dispatcher.antt and Thread/Scheduler.antt: thread/thread.h, thread/thread.cc,
--   thread/dispatcher.cc, thread/scheduler.h, thread/scheduler.cc and thread/assassin.cc. A call ends
--   in an `Outcome`: it returns, the core goes on in another thread, or the core stops. The loops over
--   the ready queue have fuel, and one more than the queue is long is enough.
-- - Thread/Context.antt: machine/toc.h, machine/toc.cc and machine/toc.asm, with the constructor of
--   thread/thread.cc. The stacks are words at addresses; the `regs` of the threads stand elsewhere.
-- - Guard.antt: guard/guard.h, guard/guard.cc and guard/gate.h. `enter`, `leave` and `relay` in the
--   critical section, of one core; the interrupts that come in while an epilogue runs are an argument
--   of `leave`. The epilogues are named in a log, and `leave` here is the one with epilogues that
--   return. The rounds of `leave` are its fuel, and one more than gates wait or come in is enough.
-- - Syscall.antt: syscall/guarded_scheduler.h and guard/secure.h, over the states of the guard and of
--   the scheduler, and `leave` and `relay` of guard/guard.cc and `guardian` of guard/guardian.cc with
--   what the epilogues of device/watch.cc and thread/assassin.cc do to the threads. A call or an
--   epilogue that switches the thread ends inside the critical section.
-- - Machine/Gdt.antt: machine/gdt.h and machine/gdt.cc.
-- - Device/Watch.antt: device/watch.h and device/watch.cc. The loop of `windup` has fuel for 34
--   rounds, since 33 halvings fit 64 bits into 31.
-- - Device/Keyboard.antt: device/keyboard.h and device/keyboard.cc. `kout` is the stream of
--   Object/OStream.antt with the screen as its device.
-- - Prelude.antt and its children: lists, tests, bits and bit fields on native numbers. Tests.antt and its
--   children apply the theorems to concrete inputs.
--
-- Integers are natural numbers with their wrap-around written out; a signed number is its bit pattern,
-- and a position on the screen, which can be negative, is an integer.
--
-- How the parts interact: the scheduler keeps its threads in a queue of Object/Queue.antt and the guard
-- its gates in four of them; the theorems on the queue carry both invariants, and the system calls hold the
-- guard's lock around the scheduler's. The guardian takes its gates from the plugbox. The watch and the
-- measurement of the timer use `div64`, and the key decoder uses the commands of the keyboard
-- controller. The keyboard puts what the decoder gathers through the stream on the screen. The system
-- detection sends its messages through the local APIC, and the interrupt map that it builds names the
-- slots of the I/O APIC.
--
-- Not modelled: the assembly of boot/startup.asm, the instructions of machine/cpu.h, `delay` of
-- machine/apicsystem.cc, the stubs of syscall/, machine/serial.cc, device/console.cc and meeting/,
-- debugging output, and the demonstration threads of user/. They are hardware access, start-up code
-- or empty.
pub mod Prelude
pub mod Device
pub mod Guard
pub mod Machine
pub mod Object
pub mod Syscall
pub mod Tests
pub mod Thread
pub mod Utils
