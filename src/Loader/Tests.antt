-- ===== src/Loader/Tests.antt =====
-- The loader at a small memory map.
use ann.Base.{◌⊎◌, true, ℕ, ◌/◌, ◌==◌, ◌≡◌, false, refl, if◌then◌else◌, arith}
use ann.LinkedList.{plain_list}
use ann.Memory.Layout.{page_size, round_down}
use ann.Loader.{BiosMmapEntry, loader_detect_memory, page_is_available, init_pages, max_address}
use ann.Loader.Laws.{IsMax, loader_detect_memory-IsMax, IsReserved, Allows, page_is_available_lem}
use ann.Loader.Boot.{allocate}
use ann.Loader.Boot.Areas.{AreApart, allocate-AreApart}
use ann.Loader.FreeList.{Sorted, init_pages-Sorted}

-- 640 KB at 0, and 63 MB behind 1 MB.
abbrev areas : ℕ → BiosMmapEntry
areas i =
    if i == 0
    then record { base_addr = 0; addr_len = 0xa_0000; type_of = 1; acpi_attrs = 0 }
    else record { base_addr = 0x10_0000; addr_len = 0x3f0_0000; type_of = 1; acpi_attrs = 0 }

-- As above, but the second area is used by the hardware.
abbrev areas_used : ℕ → BiosMmapEntry
areas_used i =
    if i == 0
    then record { base_addr = 0; addr_len = 0xa_0000; type_of = 1; acpi_attrs = 0 }
    else record { base_addr = 0x10_0000; addr_len = 0x3f0_0000; type_of = 2; acpi_attrs = 0 }

allocate-AreApart_example : AreApart 0x4000 0x12_3456 (allocate 0x4000 0x12_3456)
allocate-AreApart_example = allocate-AreApart 0x4000 0x12_3456 (omega arith)

loader_detect_memory-IsMax_example :
    IsMax areas 2 (loader_detect_memory areas 2).0
    × ((loader_detect_memory areas 2).1 ≡ (loader_detect_memory areas 2).0 / page_size)
loader_detect_memory-IsMax_example = loader_detect_memory-IsMax areas 2

abbrev listed : ℕ
listed = 2

page_is_available_lem_example :
    (IsReserved 0x20_0000 0x30_0000 0x10_0000
      → page_is_available 0x10_0000 areas 2 0x20_0000 0x30_0000 ≡ false)
    × ((IsReserved 0x20_0000 0x30_0000 0x10_0000
          ⊎ (((listed ≡ 0) ⊎ Allows (areas 0) 0x10_0000)
              → page_is_available 0x10_0000 areas 2 0x20_0000 0x30_0000 ≡ true))
        × (page_is_available 0x10_0000 areas 2 0x20_0000 0x30_0000 ≡ true
            → (listed ≡ 0) ⊎ Allows (areas 0) 0x10_0000))
page_is_available_lem_example = page_is_available_lem 0x10_0000 2 0x20_0000 0x30_0000 areas

init_pages-Sorted_example :
    Sorted 5
      (λ addr. page_is_available addr areas 2 0x1000 0x2000)
      (init_pages areas 2 0x1000 0x2000 5 (λ a. 0))
init_pages-Sorted_example = init_pages-Sorted areas 2 0x1000 0x2000 5 (λ a. 0)

detected : loader_detect_memory areas 2 ≡ (0x400_0000, 0x4000)
unfolding loader_detect_memory max_address round_down
detected = refl
