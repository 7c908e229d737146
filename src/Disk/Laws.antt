-- ===== src/Disk/Laws.antt =====
-- Reading from a drive that follows the ATA protocol for PIO. The code does not wait after a command for
-- BSY to be seen; that it is seen at the first read is a hypothesis, `prompt`.
use ann.Base.{
  ℕ, suc, ◌+◌, ◌-◌, ◌*◌, ◌/◌, ◌%◌, ◌^◌, ◌<◌, Bool, true, false, ◌≡◌, bit_or, ◌==◌, leb, ltb, ◌&&◌,
  ◌||◌, ◌/=◌, bit_and, not, if◌then◌else◌,
}
use ann.CString.{Bytes}
use ann.Disk.{
  Ports, port_data, port_sect_cnt, port_lba_lo, port_lba_mid, port_lba_high, port_drive,
  port_status, port_command, cmd_read, status_err, status_df, status_bsy, status_rdy,
}

-- Bit `n` of a status
abbrev pub bit : ℕ → ℕ → ℕ
bit n s = s / 2 ^ n % 2

-- ERR and DF are clear.
abbrev pub IsFaultless : ℕ → Type 0
IsFaultless s = (s < 2 ^ 8) × (bit 0 s ≡ 0) × (bit 5 s ≡ 0)

-- BSY is clear and RDY set.
abbrev pub IsFree : ℕ → Type 0
IsFree s = IsFaultless s × (bit 7 s ≡ 0) × (bit 6 s ≡ 1)

-- What the protocol says of a drive whose ERR and DF are never set. It is idle; or a command was
-- sent, and it may take some reads of the status, `settle`, before BSY can be seen, whatever they
-- show; or it is busy with a sector for some more reads, `delay`; or it is at a word of a sector. The
-- bits of the status that are not named may have any value.
pub record IsAta {D : Type 0} (ports : Ports D) : Type 1 where
  pub Idle : D → Type 0
  pub Sent : ℕ → D → ℕ → Type 0
  pub Busy : ℕ → D → ℕ → Type 0
  pub Reading : D → ℕ → ℕ → Type 0
  pub sector : ℕ → ℕ → ℕ
  pub settle : ℕ
  pub delay : ℕ
  pub idle_status :
      (d : D) → Idle d → IsFree ((ports.inb port_status d).0) × Idle (ports.inb port_status d).1
  pub accepts :
      (d : D) (lo mid high top : ℕ)
      → Idle d
      → top < 16
      → Sent settle
          (ports.outb port_command cmd_read (
            ports.outb port_drive (0xE0 + top) (
              ports.outb port_lba_high high (
                ports.outb port_lba_mid mid
                  (ports.outb port_lba_lo lo (ports.outb port_sect_cnt 1 d))))))
          (lo + 2 ^ 8 * mid + 2 ^ 16 * high + 2 ^ 24 * top)
  pub settles :
      (k : ℕ) (d : D) (lba : ℕ) → Sent (suc k) d lba → Sent k (ports.inb port_status d).1 lba
  pub settled : (d : D) (lba : ℕ) → Sent 0 d lba → Busy delay d lba
  pub busy_status :
      (k : ℕ) (d : D) (lba : ℕ)
      → Busy (suc k) d lba
      → (IsFaultless ((ports.inb port_status d).0) × (bit 7 (ports.inb port_status d).0 ≡ 1))
        × Busy k (ports.inb port_status d).1 lba
  pub done_status :
      (d : D) (lba : ℕ)
      → Busy 0 d lba
      → (IsFree ((ports.inb port_status d).0) × (bit 3 (ports.inb port_status d).0 ≡ 1))
        × Reading (ports.inb port_status d).1 lba 0
  pub next_word :
      (d : D) (lba i : ℕ)
      → i < 255
      → Reading d lba i
      → ((ports.inw port_data d).0 ≡ sector lba i) × Reading (ports.inw port_data d).1 lba (i + 1)
  pub last_word :
      (d : D) (lba : ℕ)
      → Reading d lba 255
      → ((ports.inw port_data d).0 ≡ sector lba 255) × Idle (ports.inw port_data d).1

-- The first byte of the sector that `va` is in, and the sectors from there to the end of a segment
abbrev pub sector_start : ℕ → ℕ
sector_start va = va - va % 512

abbrev pub sector_count : ℕ → ℕ → ℕ
sector_count va size = (va + size - sector_start va + 511) / 512

-- Byte `j` of sector `lba`
abbrev pub sector_byte : (ℕ → ℕ → ℕ) → ℕ → ℕ → ℕ
sector_byte sector lba j = sector lba (j / 2) / 2 ^ (8 * (j % 2)) % 2 ^ 8

drive_ok : ℕ → Bool
drive_ok top = bit_or top 0xE0 % 2 ^ 8 == 0xE0 + top

abbrev same : Bool → Bool → Bool
same true b = b
same false b = not b

faults : ℕ → Bool
faults s = same (bit_and s (bit_or status_err status_df) /= 0) (bit 0 s == 1 || bit 5 s == 1)

busy_bit : ℕ → Bool
busy_bit s = same (bit_and s status_bsy /= 0) (bit 7 s == 1)

ready_bit : ℕ → Bool
ready_bit s = same (bit_and s status_rdy /= 0) (bit 6 s == 1)

module _ {D : Type 0} (ports : Ports D) (ata : IsAta ports) (prompt : ata.settle ≡ 0) where
  -- The words of the sector, from word `i` on
  abbrev HasWords : ℕ → ℕ → ℕ → Bytes → Bytes × D → Type 0
  HasWords lba i dst mem r =
      (ata.Idle r.1)
      × ((a : ℕ)
          → r.0 a ≡ (
              if leb (dst + 2 * i) a && ltb a (dst + 512)
              then sector_byte ata.sector lba (a - dst)
              else mem a))

  -- One sector, read to `dst`
  abbrev HasSector : ℕ → ℕ → Bytes → Bytes → Type 0
  HasSector dst lba mem mem1 =
      (a : ℕ)
      → mem1 a
        ≡ (if leb dst a && ltb a (dst + 512) then sector_byte ata.sector lba (a - dst) else mem a)

  -- The bytes from `va` to `va_end` and on to the end of a sector hold the sectors from `lba` on.
  abbrev pub HasSectors : (sectors va lba : ℕ) → Bytes → Bool × Bytes × D → Type 0
  HasSectors sectors va lba mem r =
      (r.0 ≡ true)
      × (ata.Idle r.2)
      × ((a : ℕ)
          → r.1 a ≡ (
              if leb va a && ltb a (va + sectors * 512)
              then sector_byte ata.sector (lba + (a - va) / 512) ((a - va) % 512)
              else mem a))
