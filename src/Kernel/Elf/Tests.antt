-- ===== src/Kernel/Elf/Tests.antt =====
-- A program of one segment: four bytes of the file and four zeros at address 4096.
use stellares_os.Common.{
  ℕ, zero, suc, ◌+◌, ◌-◌, ◌<◌, ◌≡◌, refl, inl, arith, List, [], ◌∷◌, ◌++◌, get_or, replicate, ltb,
  if◌then◌else◌, codes,
}
use stellares_os.Kernel.Elf.Bytes.{Memory, load, load16, load32}
use stellares_os.Kernel.Elf.{ok, header, segment, check, elf_load, setup_stack}
use stellares_os.Kernel.Elf.Image.{IsPlaced, IsLoadable, IsLoaded, elf_load-IsLoaded}
use stellares_os.Kernel.Elf.Stack.{setup_stack_clobbers}

abbrev word : ℕ → List ℕ
word n = n ∷ 0 ∷ 0 ∷ 0 ∷ []

abbrev file : List ℕ
file =
    (127 ∷ 69 ∷ 76 ∷ 70 ∷ 1 ∷ 1 ∷ 1 ∷ 0 ∷ [])
    ++ replicate 8 0
    ++ (2 ∷ 0 ∷ 3 ∷ 0 ∷ [])
    ++ word 1
    ++ (0 ∷ 16 ∷ 0 ∷ 0 ∷ [])
    ++ word 52
    ++ word 0
    ++ word 0
    ++ (52 ∷ 0 ∷ 32 ∷ 0 ∷ 1 ∷ 0 ∷ 0 ∷ 0 ∷ 0 ∷ 0 ∷ 0 ∷ 0 ∷ [])
    ++ word 1
    ++ word 84
    ++ (0 ∷ 16 ∷ 0 ∷ 0 ∷ [])
    ++ word 0
    ++ word 4
    ++ word 8
    ++ word 5
    ++ word 0
    ++ (184 ∷ 1 ∷ 205 ∷ 128 ∷ [])

abbrev memory : Memory
memory x = if ltb x 65536 then 7 else get_or file (x - 65536) 0

file_checked : check memory 65536 88 ≡ ok
unfolding check header load32 load16
file_checked = refl

file_segments :
    (i : ℕ)
    → i < (header memory 65536).phnum
    → (segment memory (65536 + (header memory 65536).phoff) i).type ≡ 1
    → IsPlaced 65536 88 (segment memory (65536 + (header memory 65536).phoff) i)
unfolding header segment load32 load16
file_segments zero h e = record {
  in_file = omega arith;
  range = omega arith;
  range_all = omega arith;
  apart = inl (omega arith);
  apart_all = inl (omega arith);
}
file_segments (suc i) h e = absurd (omega arith)

file-IsLoadable : IsLoadable memory 65536 88
unfolding header load32 load16
file-IsLoadable = record {
  checked = file_checked;
  range = omega arith;
  header_inside = omega arith;
  table_inside = omega arith;
  few = omega arith;
  segments = file_segments;
}

elf_load-IsLoaded_example : IsLoaded 65536 memory (elf_load 65536 88 memory)
elf_load-IsLoaded_example = elf_load-IsLoaded memory 65536 88 file-IsLoadable

setup_stack_clobbers_example :
    let (sp, m') = setup_stack 65536 (codes "hello" ∷ []) memory in
    (load32 m' sp ≡ 1) × (load32 m' (sp + 4) ≡ 65536 - 256) × (load m' (load32 m' (sp + 4)) ≡ 0)
setup_stack_clobbers_example =
    setup_stack_clobbers 65536 (codes "hello") memory (omega arith) (omega arith) refl (omega arith)
