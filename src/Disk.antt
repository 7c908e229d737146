-- ===== src/Disk.antt =====
-- kernel/lib/disk/ata.c: sectors are read from the disk, word by word, through ports. The instructions
-- on ports are parameters. Pointers have 32 bits here, and memory is given by its bytes.
pub mod Laws
mod Tests
use ann.Base.{
  ℕ, zero, suc, ◌+◌, ◌-◌, ◌*◌, ◌/◌, ◌%◌, ◌^◌, Option, none, some, Bool, true, false, bit_and,
  bit_or, ◌==◌, ◌/=◌, ltb, ◌&&◌, if◌then◌else◌, update,
}
use ann.CString.{Bytes}

-- The instructions of kernel/asm.h on ports, over the state of the device.
pub record Ports (D : Type 0) : Type 0 where
  pub inb : ℕ → D → ℕ × D
  pub inw : ℕ → D → ℕ × D
  pub outb : ℕ → ℕ → D → D

abbrev pub ata_sector_size : ℕ
ata_sector_size = 512

abbrev pub port_data : ℕ
port_data = 0x1F0

abbrev pub port_sect_cnt : ℕ
port_sect_cnt = 0x1F2

abbrev pub port_lba_lo : ℕ
port_lba_lo = 0x1F3

abbrev pub port_lba_mid : ℕ
port_lba_mid = 0x1F4

abbrev pub port_lba_high : ℕ
port_lba_high = 0x1F5

abbrev pub port_drive : ℕ
port_drive = 0x1F6

abbrev pub port_status : ℕ
port_status = 0x1F7

abbrev pub port_command : ℕ
port_command = 0x1F7

abbrev pub cmd_read : ℕ
cmd_read = 0x20

abbrev pub drive_master : ℕ
drive_master = 0xE0

abbrev pub status_err : ℕ
status_err = 2 ^ 0

abbrev pub status_df : ℕ
status_df = 2 ^ 5

abbrev pub status_bsy : ℕ
status_bsy = 2 ^ 7

abbrev pub status_rdy : ℕ
status_rdy = 2 ^ 6

abbrev pub status_drq : ℕ
status_drq = 2 ^ 3

-- `dst[i] = word` at the address `a` of that element
abbrev pub put_word : Bytes → ℕ → ℕ → Bytes
put_word mem a w = update (update mem a (w % 2 ^ 8)) (a + 1) (w / 2 ^ 8 % 2 ^ 8)

module _ {D : Type 0} (ports : Ports D) where
  -- At most `fuel` reads of the status; `false` stands for -1.
  unfoldable pub disk_io_wait_ready : (fuel : ℕ) → Bool → D → Option (Bool × D)
  disk_io_wait_ready zero is_write d = none
  disk_io_wait_ready (suc fuel) is_write d =
      let (status, d1) = ports.inb port_status d in
      let again = disk_io_wait_ready fuel is_write d1 in
      if bit_and status (bit_or status_err status_df) /= 0
      then some (false, d1)
      else if bit_and status status_bsy /= 0
      then again
      else if is_write && bit_and status status_drq == 0
      then again
      else if bit_and status status_rdy /= 0
      then some (true, d1)
      else again

  -- The loop that reads the words, from word `i` on with `n` left
  unfoldable pub read_words : (n i dst : ℕ) → Bytes → D → Bytes × D
  read_words zero i dst mem d = (mem, d)
  read_words (suc n) i dst mem d =
      let (w, d1) = ports.inw port_data d in
      read_words n (i + 1) dst (put_word mem (dst + 2 * i) w) d1

  -- The registers of the drive, and the command
  unfoldable pub send_read : (lba count : ℕ) → D → D
  send_read lba count d = ports.outb port_command cmd_read (
      ports.outb port_drive (bit_or (lba / 2 ^ 24) drive_master % 2 ^ 8) (
        ports.outb port_lba_high (lba / 2 ^ 16 % 2 ^ 8) (
          ports.outb port_lba_mid (lba / 2 ^ 8 % 2 ^ 8)
            (ports.outb port_lba_lo (lba % 2 ^ 8) (ports.outb port_sect_cnt (count % 2 ^ 8) d)))))

  -- disk_io_read behind the second wait
  abbrev pub after_wait : (dst count : ℕ) → Bytes → Option (Bool × D) → Option (Bool × Bytes × D)
  after_wait dst count mem none = none
  after_wait dst count mem (some (false, d)) = some (false, mem, d)
  after_wait dst count mem (some (true, d)) =
      let (mem1, d1) = read_words (count * ata_sector_size % 2 ^ 32 / 2 % 2 ^ 16) 0 dst mem d in
      some (true, mem1, d1)

  abbrev pub when_ready :
      (fuel dst lba count : ℕ) → Bytes → Option (Bool × D) → Option (Bool × Bytes × D)
  when_ready fuel dst lba count mem none = none
  when_ready fuel dst lba count mem (some (false, d)) = some (false, mem, d)
  when_ready fuel dst lba count mem (some (true, d)) =
      after_wait dst count mem (disk_io_wait_ready fuel false (send_read lba count d))

  unfoldable pub disk_io_read : (fuel dst lba count : ℕ) → Bytes → D → Option (Bool × Bytes × D)
  disk_io_read fuel dst lba count mem d =
      when_ready fuel dst lba count mem (disk_io_wait_ready fuel false d)

  -- The loop of disk_io_read_segment, for at most `n` sectors
  unfoldable pub read_sectors : (n fuel va va_end lba : ℕ) → Bytes → D → Option (Bool × Bytes × D)
  read_sectors zero fuel va va_end lba mem d = none
  read_sectors (suc n) fuel va va_end lba mem d =
      if ltb va va_end
      then elim (disk_io_read fuel va lba 1 mem d) [
        | none ↦ none
        | some r ↦
            let (done, mem1, d1) = r in
            if done
            then read_sectors n fuel ((va + ata_sector_size) % 2 ^ 32) va_end ((lba + 1) % 2 ^ 32)
                mem1 d1
            else some (false, mem1, d1)
      ]
      else some (true, mem, d)

  unfoldable pub disk_io_read_segment :
      (n fuel va size lba : ℕ) → Bytes → D → Option (Bool × Bytes × D)
  disk_io_read_segment n fuel va size lba mem d =
      read_sectors n fuel (va - va % ata_sector_size) ((va + size) % 2 ^ 32) lba mem d
