-- ===== src/Kernel/Elf/Keep.antt =====
-- `elf_exec` of kernel/elf_loader.c reads the file system in memory and changes nothing of it.
use stellares_os.Common.{
  ℕ, ◌≡◌, refl, Option, none, some, List, [], ◌∷◌, length, Option-cases, inl, inr,
}
use stellares_os.Fs.Device.{BlockDevice}
use stellares_os.Kernel.Sched.{Layout}
use stellares_os.Kernel.Elf.Bytes.{Memory, put_bytes}
use stellares_os.Kernel.Elf.{
  Result, ok, not_elf, not_32, not_exec, no_mem, no_file, Places, Machine, file_bytes,
  start_program, loaded, elf_load, elf_exec,
}

module _ (b : BlockDevice) (l : Layout) (at : Places) where
  start_program-nodes :
      (path : List ℕ) (args : List (List ℕ)) (entry : Option ℕ) (s : Machine b)
      → (start_program b l at path args entry s).nodes ≡ s.nodes
  unfolding start_program
  start_program-nodes path args none s = refl
  start_program-nodes path args (some entry) s = refl

  loaded-nodes :
      (path : List ℕ) (args : List (List ℕ)) (r : Result) (m : Memory) (entry : Option ℕ)
      (s : Machine b)
      → (loaded b l at path args (r, m, entry) s).1.nodes ≡ s.nodes
  unfolding loaded
  loaded-nodes path args ok m entry s =
      start_program-nodes path args entry (record s { memory = m })
  loaded-nodes path args not_elf m entry s = refl
  loaded-nodes path args not_32 m entry s = refl
  loaded-nodes path args not_exec m entry s = refl
  loaded-nodes path args no_mem m entry s = refl
  loaded-nodes path args no_file m entry s = refl

  pub elf_exec-nodes :
      (path : List ℕ) (args : List (List ℕ)) (s : Machine b)
      → (elf_exec b l at (some path) args s).1.nodes ≡ s.nodes
  unfolding elf_exec
  elf_exec-nodes path args s = elim (Option-cases (file_bytes b s path)) [
    | inl e ↦ rw (e, elf_exec) refl
    | inr ([], e) ↦ rw (e, elf_exec) refl
    | inr (c ∷ bs, e) ↦
        let s1 : Machine b = record s { memory = put_bytes s.memory at.elf_buf (c ∷ bs) } in
        let r = elf_load at.elf_buf (length (c ∷ bs)) s1.memory in
        rw (e, elf_exec) (loaded-nodes path args r.0 r.1 r.2 s1)
  ]
