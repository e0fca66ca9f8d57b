-- ===== src/Heap/Tests.antt =====
-- Runs of the kernel heap, and its theorems at them.
use lighth_os.Common.{ℕ, ◌+◌, ◌*◌, ◌≡◌, refl, [], ◌∷◌, true, false, arith}
use lighth_os.Heap.{
  Heap, header_size, init, get_used, get_free, kmalloc, kfree, first_fit, mark_free, merge_prev,
  absorb_prev, absorb_next,
}
use lighth_os.Heap.Tiles.{IsValid, init-IsValid, get_used-add-get_free, free_count}
use lighth_os.Heap.Malloc.{Malloc}
use lighth_os.Heap.Free.{here, there, Freed, kfree-Freed}
use lighth_os.Heap.RoundTrip.{kfree-kmalloc}

-- KHEAP_VA and KHEAP_SIZE of src/kernel/main.c, and the heap that heap_init makes there
abbrev kheap_va : ℕ
kheap_va = 0xFFFF_FFFF_8100_0000

abbrev kheap_end : ℕ
kheap_end = 0xFFFF_FFFF_8300_0000

kernel_heap-IsValid : IsValid kheap_va kheap_end (init kheap_va 0x200_0000)
kernel_heap-IsValid =
    init-IsValid kheap_va 0x200_0000 (omega arith) (omega arith) (omega arith) (omega arith)

-- the kernel's heap with a used block, a free one, a used one and the rest
abbrev mixed : Heap
mixed =
    record { addr = kheap_va; size = 16; is_free = false }
    ∷ record { addr = kheap_va + 48; size = 128; is_free = true }
    ∷ record { addr = kheap_va + 208; size = 32; is_free = false }
    ∷ record { addr = kheap_va + 272; size = 0x1FF_FED0; is_free = true }
    ∷ []

mixed-IsValid : IsValid kheap_va kheap_end mixed
mixed-IsValid = record {
  aligned = omega arith;
  bounded = omega arith;
  tiles = omega arith;
  coalesced = (refl, (refl, (refl, (refl, tt))));
}

-- 40 bytes are rounded to 48, and the rest of the free block is split off
split_run : (kmalloc 40 mixed).0 ≡ kheap_va + 80
unfolding kmalloc first_fit
split_run = refl

-- the last used block joins both of its neighbours
join_run :
    kfree (kheap_va + 240) mixed
    ≡ record { addr = kheap_va; size = 16; is_free = false }
      ∷ record { addr = kheap_va + 48; size = 0x1FF_FFB0; is_free = true }
      ∷ []
unfolding kfree mark_free merge_prev absorb_prev absorb_next
join_run = refl

kfree-Freed_example :
    Freed (kheap_va + 208) kheap_va kheap_end false mixed (kfree (kheap_va + 240) mixed)
    × IsValid kheap_va kheap_end (kfree (kheap_va + 240) mixed)
kfree-Freed_example =
    kfree-Freed kheap_va kheap_end (kheap_va + 240) mixed (omega arith)
      (there (there (here refl refl))) mixed-IsValid

kfree-kmalloc_example : kfree (kmalloc 40 mixed).0 (kmalloc 40 mixed).1 ≡ mixed
kfree-kmalloc_example =
    kfree-kmalloc kheap_va kheap_end 40 mixed mixed-IsValid (rw split_run (omega arith))

get_used-add-get_free_example :
    kheap_va + (get_used mixed + get_free mixed + header_size * free_count mixed) ≡ kheap_end
get_used-add-get_free_example = get_used-add-get_free mixed kheap_va mixed-IsValid.tiles
