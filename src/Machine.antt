-- ===== src/Machine.antt =====
-- machine/: the classes next to the hardware.
pub mod SystemConfig
pub mod Acpi
pub mod CgaScreen
pub mod Gdt
pub mod Ioapic
pub mod Spinlock
pub mod System
pub mod Ticketlock
pub mod Key
pub mod KeyPort
pub mod KeyDecoder
pub mod KeyHit
pub mod MpTable
pub mod Plugbox
pub mod Lapic
pub mod LapicTimer
