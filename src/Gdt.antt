-- ===== src/Gdt.antt =====
-- The descriptor tables of src/gdt.rs. The tables themselves are those of the crate x86_64:
-- `GlobalDescriptorTable` is an interface, its operations with the laws that its documentation gives.
pub mod Star
pub mod Flat
mod Tests
use lobster_os_legacy.Prelude.{ℕ, ◌+◌, ◌*◌, ◌≤◌, ◌≡◌, ◌==◌, if◌then◌else◌}
use lobster_os_legacy.Process

pub data Descriptor : Type 0 where
  kernel_code_segment kernel_data_segment user_data_segment user_code_segment : Descriptor
  -- Of the task state segment at an address.
  tss_segment : ℕ → Descriptor

-- How many entries a descriptor takes, and the level that its selector asks for.
abbrev pub slots : Descriptor → ℕ
slots (tss_segment at) = 2
slots _ = 1

abbrev pub level : Descriptor → ℕ
level user_data_segment = 3
level user_code_segment = 3
level _ = 0

-- A new table has the null entry and there is room for 8; a selector is the index of the entry, above
-- the bits for the table and the level.
pub record GlobalDescriptorTable : Type 1 where
  pub T : Type 0
  pub new : T
  pub add_entry : Descriptor → T → ℕ × T
  pub size : T → ℕ
  pub size-new : size new ≡ 1
  pub size-add_entry :
      (d : Descriptor) (t : T) → size t + slots d ≤ 8 → size (add_entry d t).1 ≡ size t + slots d
  pub add_entry-selector :
      (d : Descriptor) (t : T) → size t + slots d ≤ 8 → (add_entry d t).0 ≡ 8 * size t + level d

pub record Selectors : Type 0 where
  pub code_selector : ℕ
  pub data_selector : ℕ
  pub tss_selector : ℕ
  pub user_data_selector : ℕ
  pub user_code_selector : ℕ

abbrev pub double_fault_ist_index : ℕ
double_fault_ist_index = 0

-- The fields of `TaskStateSegment` that the source sets: the ends of two stacks.
pub record TaskStateSegment : Type 0 where
  pub interrupt_stack : ℕ → ℕ
  pub privilege_stack : ℕ → ℕ

abbrev put : ℕ → ℕ → (ℕ → ℕ) → ℕ → ℕ
put i v f j = if j == i then v else f j

-- `double_fault_stack` and `ring_0_stack` are where the two static arrays start.
unfoldable pub tss : (double_fault_stack ring_0_stack : ℕ) → TaskStateSegment → TaskStateSegment
tss double_fault_stack ring_0_stack t = record t {
  interrupt_stack = put double_fault_ist_index (double_fault_stack + 4096 * 5) t.interrupt_stack;
  privilege_stack = put 0 (ring_0_stack + 0x10000) t.privilege_stack;
}

-- The registers of the processor that `init` sets.
pub record Registers (T : Type 0) : Type 0 where
  pub gdtr : T
  pub cs : ℕ
  pub tr : ℕ

module _ (x : GlobalDescriptorTable) where
  open x use {T, new, add_entry}

  -- The static `GDT`, for a task state segment at `tss_at`.
  unfoldable pub gdt : ℕ → T × Selectors
  gdt tss_at =
      let (code_selector, t1) = add_entry kernel_code_segment new in
      let (data_selector, t2) = add_entry kernel_data_segment t1 in
      let (tss_selector, t3) = add_entry (tss_segment tss_at) t2 in
      let (user_data_selector, t4) = add_entry user_data_segment t3 in
      let (user_code_selector, t5) = add_entry user_code_segment t4 in
      (
        t5,
        record {
          code_selector = code_selector;
          data_selector = data_selector;
          tss_selector = tss_selector;
          user_data_selector = user_data_selector;
          user_code_selector = user_code_selector;
        },
      )

  unfoldable pub init : ℕ → Registers T → Registers T
  unfolding gdt
  init tss_at r =
      let (table, selectors) = gdt tss_at in
      record r { gdtr = table; cs = selectors.code_selector; tr = selectors.tss_selector }

  -- What `set_usermode_segments` reads of the table.
  abbrev pub user_selectors : ℕ → Process.Selectors
  user_selectors tss_at = record {
    user_code_selector = (gdt tss_at).1.user_code_selector;
    user_data_selector = (gdt tss_at).1.user_data_selector;
  }
