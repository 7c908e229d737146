-- ===== src/Disk/Tests.antt =====
-- A drive whose words are the number of the sector plus their place, and a segment of 700 bytes.
use ann.Base.{ℕ, zero, suc, ◌+◌, ◌-◌, ◌*◌, ◌^◌, ◌≡◌, refl, arith, ◌==◌, if◌then◌else◌}
use ann.Disk.{
  Ports, port_lba_lo, port_lba_mid, port_lba_high, port_drive, port_command, port_status,
}
use ann.Disk.Laws.{IsAta, IsFree, bit}

-- `place` is the next word, and 256 when the drive is idle.
record Drive : Type 0 where
  lo : ℕ
  mid : ℕ
  high : ℕ
  top : ℕ
  place : ℕ

abbrev lba_of : Drive → ℕ
lba_of d = d.lo + 2 ^ 8 * d.mid + 2 ^ 16 * d.high + 2 ^ 24 * d.top

abbrev out : ℕ → ℕ → Drive → Drive
out port v d =
    if port == port_lba_lo
    then record d { lo = v }
    else if port == port_lba_mid
    then record d { mid = v }
    else if port == port_lba_high
    then record d { high = v }
    else if port == port_drive
    then record d { top = v - 0xE0 }
    else if port == port_command
    then record d { place = 0 }
    else d

abbrev drive_ports : Ports Drive
drive_ports = record {
  inb = λ port d. (if d.place == 256 then 0x50 else 0x58, d);
  inw = λ port d. (lba_of d + d.place, record d { place = d.place + 1 });
  outb = out;
}

abbrev BusyFor : ℕ → Drive → ℕ → Type 0
BusyFor zero d lba = (lba_of d ≡ lba) × (d.place ≡ 0)
BusyFor (suc k) d lba = ⊥

idle_50 : (d : Drive) → d.place ≡ 256 → IsFree ((drive_ports.inb port_status d).0)
idle_50 d h = rw h ((omega arith, refl, refl), refl, refl)

done_58 :
    (d : Drive)
    → d.place ≡ 0
    → IsFree ((drive_ports.inb port_status d).0) × (bit 3 (drive_ports.inb port_status d).0 ≡ 1)
done_58 d h = rw h (((omega arith, refl, refl), refl, refl), refl)

drive_ata : IsAta drive_ports
drive_ata = record {
  Idle = λ d. d.place ≡ 256;
  Sent = λ k d lba. (lba_of d ≡ lba) × (d.place ≡ 0);
  Busy = BusyFor;
  Reading = λ d lba i. (lba_of d ≡ lba) × (d.place ≡ i);
  sector = λ lba i. lba + i;
  settle = 0;
  delay = 0;
  idle_status = λ d h. (idle_50 d h, h);
  settles = λ k d lba s. s;
  settled = λ d lba s. s;
  accepts = λ d lo mid high top h small. (omega arith, refl);
  busy_status = λ k d lba h. absurd h;
  done_status = λ d lba h. (done_58 d (h.1), h);
  next_word = λ d lba i h r. (omega (arith, r), (r.0, omega (arith, r)));
  last_word = λ d lba r. (omega (arith, r), omega (arith, r));
}

abbrev idle_drive : Drive
idle_drive = record { lo = 0; mid = 0; high = 0; top = 0; place = 256 }
