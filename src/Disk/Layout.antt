-- ===== src/Disk/Layout.antt =====
-- The packed structures of src/disk.rs as the sizes of their fields in order. A `repr(C, packed)`
-- structure has no padding, so a field starts where the ones before it end.
use lobster_os_legacy.Prelude.{ℕ, ◌+◌, ◌-◌, ◌*◌, ◌≡◌, refl, List, [], ◌∷◌, take, arith}

abbrev pub sum : List ℕ → ℕ
sum [] = 0
sum (n ∷ ns) = n + sum ns

abbrev pub size_of : List ℕ → ℕ
size_of = sum

abbrev pub offset_of : List ℕ → ℕ → ℕ
offset_of sizes i = sum (take i sizes)

abbrev pub fis_reg_h2d : List ℕ
fis_reg_h2d = 1 ∷ 1 ∷ 1 ∷ 1 ∷ 1 ∷ 1 ∷ 1 ∷ 1 ∷ 1 ∷ 1 ∷ 1 ∷ 1 ∷ 2 ∷ 1 ∷ 1 ∷ 4 ∷ []

abbrev pub fis_reg_d2h : List ℕ
fis_reg_d2h = 1 ∷ 1 ∷ 1 ∷ 1 ∷ 1 ∷ 1 ∷ 1 ∷ 1 ∷ 1 ∷ 1 ∷ 1 ∷ 1 ∷ 2 ∷ 2 ∷ 4 ∷ []

abbrev pub fis_pio_setup : List ℕ
fis_pio_setup = 1 ∷ 1 ∷ 1 ∷ 1 ∷ 1 ∷ 1 ∷ 1 ∷ 1 ∷ 1 ∷ 1 ∷ 1 ∷ 1 ∷ 2 ∷ 1 ∷ 1 ∷ 2 ∷ 2 ∷ []

abbrev pub fis_dma_setup : List ℕ
fis_dma_setup = 1 ∷ 1 ∷ 2 ∷ 8 ∷ 4 ∷ 4 ∷ 4 ∷ 4 ∷ []

abbrev pub hba_port : List ℕ
hba_port =
    4 ∷ 4 ∷ 4 ∷ 4 ∷ 4 ∷ 4 ∷ 4 ∷ (0x120 - 0x11C) ∷ 4 ∷ 4 ∷ 4 ∷ 4 ∷ 4 ∷ 4 ∷ 4 ∷ (0x180 - 0x13C) ∷ []

-- Up to the ports.
abbrev pub hba : List ℕ
hba =
    4
    ∷ 4
    ∷ 4
    ∷ 4
    ∷ 4
    ∷ 4
    ∷ 4
    ∷ 4
    ∷ 4
    ∷ 4
    ∷ 4
    ∷ (0xA0 - 0x2C)
    ∷ (0x100 - 0xA0)
    ∷ (32 * size_of hba_port)
    ∷ []

abbrev pub hba_fis : List ℕ
hba_fis =
    size_of fis_dma_setup
    ∷ 4
    ∷ size_of fis_pio_setup
    ∷ 12
    ∷ size_of fis_reg_d2h
    ∷ 4
    ∷ 8
    ∷ 64
    ∷ (0x100 - 0xA0)
    ∷ []

abbrev pub hba_command_header : List ℕ
hba_command_header = 1 ∷ 1 ∷ 2 ∷ 4 ∷ 8 ∷ 16 ∷ []

abbrev pub hba_prdt_entry : List ℕ
hba_prdt_entry = 8 ∷ 4 ∷ 4 ∷ []

abbrev pub hba_command_table : List ℕ
hba_command_table = 64 ∷ 16 ∷ 48 ∷ (8 * size_of hba_prdt_entry) ∷ []

-- The registers of a port that the driver reads and writes.
pub data Register : Type 0 where
  cl_base : Register
  cl_base_upper : Register
  fis_base : Register
  fis_base_upper : Register
  interrupt_status : Register
  interrupt_enable : Register
  command_status : Register
  task_file_data : Register
  signature : Register
  sata_status : Register
  sata_control : Register
  sata_error : Register
  sata_active : Register
  command_issue : Register

-- The place of its field in `HBAPort`.
abbrev pub register_field : Register → ℕ
register_field cl_base = 0
register_field cl_base_upper = 1
register_field fis_base = 2
register_field fis_base_upper = 3
register_field interrupt_status = 4
register_field interrupt_enable = 5
register_field command_status = 6
register_field task_file_data = 8
register_field signature = 9
register_field sata_status = 10
register_field sata_control = 11
register_field sata_error = 12
register_field sata_active = 13
register_field command_issue = 14

-- `addr_of!((*hba_ptr).hba_ports[i].register)`
unfoldable pub register_addr : ℕ → ℕ → Register → ℕ
register_addr hba_ptr i r =
    hba_ptr + offset_of hba 13 + i * size_of hba_port + offset_of hba_port (register_field r)

-- The offsets of the AHCI specification: PxCLB, PxCLBU, PxFB, PxFBU, PxIS, PxIE, PxCMD, PxTFD, PxSIG,
-- PxSSTS, PxSCTL, PxSERR, PxSACT, PxCI.
abbrev pub ahci_offset : Register → ℕ
ahci_offset cl_base = 0x00
ahci_offset cl_base_upper = 0x04
ahci_offset fis_base = 0x08
ahci_offset fis_base_upper = 0x0C
ahci_offset interrupt_status = 0x10
ahci_offset interrupt_enable = 0x14
ahci_offset command_status = 0x18
ahci_offset task_file_data = 0x20
ahci_offset signature = 0x24
ahci_offset sata_status = 0x28
ahci_offset sata_control = 0x2C
ahci_offset sata_error = 0x30
ahci_offset sata_active = 0x34
ahci_offset command_issue = 0x38

field_offset : (r : Register) → offset_of hba_port (register_field r) ≡ ahci_offset r
field_offset cl_base = refl
field_offset cl_base_upper = refl
field_offset fis_base = refl
field_offset fis_base_upper = refl
field_offset interrupt_status = refl
field_offset interrupt_enable = refl
field_offset command_status = refl
field_offset task_file_data = refl
field_offset signature = refl
field_offset sata_status = refl
field_offset sata_control = refl
field_offset sata_error = refl
field_offset sata_active = refl
field_offset command_issue = refl

-- The field of each register of a port lies where the AHCI specification has the register: 0x100
-- bytes into the controller's memory, 0x80 bytes for each port before it, and the register's offset.
pub register_addr-ahci_offset :
    (hba_ptr i : ℕ) (r : Register)
    → register_addr hba_ptr i r ≡ hba_ptr + 0x100 + 0x80 * i + ahci_offset r
unfolding register_addr
register_addr-ahci_offset hba_ptr i r = omega (arith, field_offset r)
