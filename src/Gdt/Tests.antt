-- ===== src/Gdt/Tests.antt =====
-- The tables with a table that is its number of entries.
use lobster_os_legacy.Prelude.{ℕ, ◌+◌, ◌/◌, ◌%◌, ◌^◌, ◌≡◌}
use lobster_os_legacy.Process.{set_usermode_segments}
use lobster_os_legacy.Gdt
use lobster_os_legacy.Gdt.{gdt, user_selectors}
use lobster_os_legacy.Gdt.Flat.{flat}
use lobster_os_legacy.Gdt.Star.{star, segments-agree}

abbrev loaded : Gdt.Registers ℕ
loaded = Gdt.init flat 0x7000 (record { gdtr = 0; cs = 8; tr = 0 })

segments-agree_example :
    ((set_usermode_segments (user_selectors flat 0x7000)).0
      ≡ star flat 0x7000 0x200000 (λ a. 0) / 2 ^ 48 + 16)
    × ((set_usermode_segments (user_selectors flat 0x7000)).1
        ≡ star flat 0x7000 0x200000 (λ a. 0) / 2 ^ 48 + 8)
    × (loaded.cs ≡ star flat 0x7000 0x200000 (λ a. 0) / 2 ^ 32 % 2 ^ 16)
    × ((gdt flat 0x7000).1.data_selector ≡ star flat 0x7000 0x200000 (λ a. 0) / 2 ^ 32 % 2 ^ 16 + 8)
    × (loaded.tr ≡ 0x18)
segments-agree_example =
    segments-agree flat 0x7000 0x200000 (λ a. 0) (record { gdtr = 0; cs = 8; tr = 0 })
