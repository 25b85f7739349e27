-- ===== src/Vm.antt =====
-- xv6-public/vm.c: page tables, user memory and copy on write. One child for each group of functions
-- and, below, one for each group of theorems.
pub mod Walk
pub mod Uvm
pub mod Kvm
pub mod Fork
pub mod Count
pub mod Cow
pub mod Entry
mod Tests
