-- ===== src/Gdt/Star.antt =====
-- The selectors of src/gdt.rs and those that `init` of src/syscall.rs puts into a register, from
-- which the processor takes the segments of `syscall` and `sysretq`.
use lobster_os_legacy.Prelude.{ℕ, ◌+◌, ◌/◌, ◌%◌, ◌^◌, ◌≡◌, refl, ◌∙◌, sym, arith}
use lobster_os_legacy.Process.{set_usermode_segments}
use lobster_os_legacy.Syscall.Registers
use lobster_os_legacy.Syscall.Registers.{ia32_star, init_registers}
use lobster_os_legacy.Gdt
use lobster_os_legacy.Gdt.{GlobalDescriptorTable, Descriptor, gdt, user_selectors}

module _ (x : GlobalDescriptorTable) (tss_at : ℕ) where
  open x use {T, new, add_entry, size}

  gdt_selectors :
      ((gdt x tss_at).1.code_selector ≡ 8)
      × ((gdt x tss_at).1.data_selector ≡ 0x10)
      × ((gdt x tss_at).1.tss_selector ≡ 0x18)
      × ((gdt x tss_at).1.user_data_selector ≡ 0x2B)
      × ((gdt x tss_at).1.user_code_selector ≡ 0x33)
  unfolding gdt
  gdt_selectors =
      let n0 = x.size-new in
      let t1 = (add_entry Descriptor.kernel_code_segment new).1 in
      let n1 : size t1 ≡ 2 =
        x.size-add_entry Descriptor.kernel_code_segment new (omega arith) ∙ omega arith in
      let t2 = (add_entry Descriptor.kernel_data_segment t1).1 in
      let n2 : size t2 ≡ 3 =
        x.size-add_entry Descriptor.kernel_data_segment t1 (omega arith) ∙ omega arith in
      let t3 = (add_entry (Descriptor.tss_segment tss_at) t2).1 in
      let n3 : size t3 ≡ 5 =
        x.size-add_entry (Descriptor.tss_segment tss_at) t2 (omega arith) ∙ omega arith in
      let t4 = (add_entry Descriptor.user_data_segment t3).1 in
      let n4 : size t4 ≡ 6 =
        x.size-add_entry Descriptor.user_data_segment t3 (omega arith) ∙ omega arith in
      (
        x.add_entry-selector Descriptor.kernel_code_segment new (omega arith) ∙ omega arith,
        x.add_entry-selector Descriptor.kernel_data_segment t1 (omega arith) ∙ omega arith,
        x.add_entry-selector (Descriptor.tss_segment tss_at) t2 (omega arith) ∙ omega arith,
        x.add_entry-selector Descriptor.user_data_segment t3 (omega arith) ∙ omega arith,
        x.add_entry-selector Descriptor.user_code_segment t4 (omega arith) ∙ omega arith,
      )

  -- What `init` of syscall.rs leaves in the register.
  abbrev pub star : ℕ → (ℕ → ℕ) → ℕ
  star handler_addr msrs = Registers.init handler_addr msrs ia32_star

  usermode_segments :
      ((set_usermode_segments (user_selectors x tss_at)).0 ≡ 0x33)
      × ((set_usermode_segments (user_selectors x tss_at)).1 ≡ 0x2B)
  unfolding set_usermode_segments
  usermode_segments =
      let (code, data_is, tr, user_data, user_code) = gdt_selectors in
      ((rw user_code refl), (rw user_data refl))

  -- The two ways into ring 3 agree with the table. Whatever a table keeps to the laws of
  -- `GlobalDescriptorTable`, the segments with which a process first starts (`set_usermode_segments`)
  -- are those to which `sysretq` returns by the register that `init` of syscall.rs sets, 16 and 8
  -- above its upper part; `syscall` enters with the table's kernel code segment, which is also what
  -- `init` of gdt.rs loads, and takes the kernel data segment as its stack's.
  pub segments-agree :
      (handler_addr : ℕ) (msrs : ℕ → ℕ) (r : Gdt.Registers T)
      → ((set_usermode_segments (user_selectors x tss_at)).0 ≡ star handler_addr msrs / 2 ^ 48 + 16)
        × ((set_usermode_segments (user_selectors x tss_at)).1
            ≡ star handler_addr msrs / 2 ^ 48 + 8)
        × ((Gdt.init x tss_at r).cs ≡ star handler_addr msrs / 2 ^ 32 % 2 ^ 16)
        × ((gdt x tss_at).1.data_selector ≡ star handler_addr msrs / 2 ^ 32 % 2 ^ 16 + 8)
        × ((Gdt.init x tss_at r).tr ≡ 0x18)
  unfolding Gdt.init
  segments-agree handler_addr msrs r =
      let (lstar, fmask, entered, code, data_is) = init_registers handler_addr msrs in
      let (kernel_code, kernel_data, task_state, user_data, user_code) = gdt_selectors in
      (
        usermode_segments.0 ∙ sym code,
        usermode_segments.1 ∙ sym data_is,
        kernel_code ∙ sym entered,
        kernel_data ∙ omega (arith, entered),
        task_state,
      )
