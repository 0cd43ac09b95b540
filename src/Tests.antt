-- ===== src/Tests.antt =====
-- Runs of the model on small inputs, and the theorems at inputs where their hypotheses hold.
mod Acpi
mod Boot
mod Chain
mod Config
mod Directory
mod Discover
mod Elf
mod Files
mod Handover
mod Linux
mod Loading
mod Main
mod Mb1
mod Menu
mod Modules
mod Multiboot
mod Print
mod Trampoline
