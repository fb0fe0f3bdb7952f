-- ===== src/Memory/Space.antt =====
-- The address spaces of processes, arch/x86_64/paging.c: create_address_space, copy_address_space,
-- free_address_space and mmio_register. A page that is copied is taken as 512 words, like a table.
pub mod Grows
pub mod Create
use Prim.Native.Nat.{bit_or}
use utms.Base.{
  ℕ, zero, suc, ◌+◌, ◌*◌, ◌/◌, ◌%◌, Bool, true, false, not, ◌&&◌, ◌||◌, List, [], ◌∷◌, ◌++◌, length,
  Option, none, some, if◌then◌else◌, ◌==◌, leb, u64, has_bit,
}
use utms.Memory.Pages.{alloc_page, free_page}
use utms.Memory.Paging.{
  Machine, present, writable, user, huge, base_of, set_entry, fill, on_success, map_for_process,
}

-- `PML4_ADDR`
abbrev pub kernel_pml4 : ℕ
kernel_pml4 = 4096

-- `mmio_base[i]`, `mmio_len[i]`
pub record Region : Type 0 where
  pub base : ℕ
  pub len : ℕ

abbrev pub mmio_max_regions : ℕ
mmio_max_regions = 16

unfoldable pub mmio_register : ℕ → ℕ → List Region → List Region
mmio_register base len regions =
    if leb mmio_max_regions (length regions)
    then regions
    else regions ++ (record { base = base_of base; len = base_of (u64 (len + 4095)) } ∷ [])

-- `pmm_alloc_page`, which clears the page.
unfoldable pub new_page : Machine → Machine × Option ℕ
unfolding fill
new_page m =
    let (pages, page) = alloc_page m.pages in
    elim page [
      | none ↦ (record m { pages = pages }, none)
      | some a ↦ (fill a (λ j. 0) (record m { pages = pages }), some a)
    ]

-- `pmm_free_page`
abbrev pub give_back : ℕ → Machine → Machine
give_back a m = if a == 0 then m else record m { pages = free_page a m.pages }

-- The loop over `rounds` indices from `i` on.
unfoldable pub for_each : ℕ → ℕ → (ℕ → Machine → Machine) → Machine → Machine
for_each zero i f m = m
for_each (suc rounds) i f m = for_each rounds (suc i) f (f i m)

-- The same, left at the first failure.
unfoldable pub for_success : ℕ → ℕ → (ℕ → Machine → Machine × Bool) → Machine → Machine × Bool
for_success zero i f m = (m, true)
for_success (suc rounds) i f m = on_success (f i m) (for_success rounds (suc i) f)

unfoldable pub free_pt : ℕ → Machine → Machine
unfolding for_each
free_pt pt m = give_back pt (
    for_each 512 0
      (λ l m'. let e = m'.table pt l in if has_bit present e then give_back (base_of e) m' else m')
      m)

unfoldable pub free_pd : ℕ → Machine → Machine
unfolding for_each free_pt
free_pd pd m = give_back pd (
    for_each 512 0
      (λ k m'.
        let e = m'.table pd k in
        let freed = free_pt (base_of e) m' in
        if has_bit present e && not (has_bit huge e) then freed else m')
      m)

-- The first and the fourth gigabyte are the kernel's.
abbrev pub is_kernels : ℕ → ℕ → Bool
is_kernels i j = (i == 0) && ((j == 0) || (j == 3))

unfoldable pub free_pdpt : ℕ → ℕ → Machine → Machine
unfolding for_each free_pd
free_pdpt i pdpt m = give_back pdpt (
    for_each 512 0
      (λ j m'.
        let e = m'.table pdpt j in
        let freed = free_pd (base_of e) m' in
        if is_kernels i j || not (has_bit present e) then m' else freed)
      m)

unfoldable pub free_address_space : ℕ → Machine → Machine
unfolding for_each free_pdpt
free_address_space pml4 m =
    let freed = give_back pml4 (
      for_each 256 0
        (λ i m'.
          let e = m'.table pml4 i in
          let below = free_pdpt i (base_of e) m' in if has_bit present e then below else m')
        m) in
    if (pml4 == 0) || (pml4 == kernel_pml4) then m else freed

-- Pages that are mapped to their own addresses, up to the first failure.
unfoldable pub map_identity : ℕ → ℕ → ℕ → ℕ → ℕ → Machine → Machine
map_identity zero pml4 base off flags m = m
map_identity (suc rounds) pml4 base off flags m =
    let (m', ok) = map_for_process pml4 (u64 (base + off)) (u64 (base + off)) flags m in
    let rest = map_identity rounds pml4 base (off + 4096) flags m' in if ok then rest else m'

abbrev pub rounds_of : ℕ → ℕ
rounds_of len = (len + 4095) / 4096

unfoldable pub map_regions : ℕ → List Region → Machine → Machine
unfolding map_identity
map_regions pml4 [] m = m
map_regions pml4 (r ∷ rs) m =
    map_regions pml4 rs (map_identity (rounds_of r.len) pml4 r.base 0 (present + writable) m)

-- The kernel's half, and the table of the first 512 gigabytes.
unfoldable pub share_kernel : ℕ → ℕ → Machine → Machine
unfolding fill set_entry
share_kernel pml4 pdpt m =
    let half = fill pml4 (λ i. if leb 256 i then m.table kernel_pml4 i else m.table pml4 i) m in
    let linked = set_entry pml4 0 (bit_or pdpt (present + writable + user)) half in
    set_entry pdpt 0 (linked.table (base_of (linked.table kernel_pml4 0)) 0) linked

-- `create_address_space`, with the framebuffer of drm_fb_phys and drm_fb_size.
unfoldable pub create_address_space : Region → List Region → Machine → Machine × Option ℕ
unfolding new_page share_kernel map_identity map_regions
create_address_space fb regions m =
    let (m1, pml4) = new_page m in
    elim pml4 [
      | none ↦ (m1, none)
      | some a ↦
          let (m2, pdpt) = new_page m1 in
          elim pdpt [
            | none ↦ (give_back a m2, none)
            | some b ↦ (
              map_regions a regions (
                  map_identity (rounds_of fb.len) a fb.base 0 (present + writable + user)
                    (share_kernel a b m2)),
              some a,
            )
          ]
    ]

-- A present page of the table `pt` is copied into the other address space.
unfoldable pub copy_page : ℕ → ℕ → ℕ → Machine → Machine × Bool
unfolding new_page fill
copy_page dst e virt m =
    let (m1, page) = new_page m in
    elim page [
      | none ↦ (m1, false)
      | some a ↦
          let (m2, ok) = map_for_process dst a virt (e % 4096) (fill a (m1.table (base_of e)) m1) in
          if ok then (m2, true) else (give_back a m2, false)
    ]

unfoldable pub copy_pt : ℕ → ℕ → ℕ → Machine → Machine × Bool
unfolding for_success copy_page
copy_pt dst pt virt = for_success 512 0 (λ l m.
    let e = m.table pt l in
    let copied = copy_page dst e (virt + l * 4096) m in
    if has_bit present e then copied else (m, true))

unfoldable pub copy_pd : ℕ → ℕ → ℕ → Machine → Machine × Bool
unfolding for_success copy_pt
copy_pd dst pd virt = for_success 512 0 (λ k m.
    let e = m.table pd k in
    let copied = copy_pt dst (base_of e) (virt + k * 2097152) m in
    if has_bit present e && not (has_bit huge e) then copied else (m, true))

unfoldable pub copy_pdpt : ℕ → ℕ → ℕ → Machine → Machine × Bool
unfolding for_success copy_pd
copy_pdpt dst i pdpt = for_success 512 0 (λ j m.
    let e = m.table pdpt j in
    let copied = copy_pd dst (base_of e) (i * 549755813888 + j * 1073741824) m in
    if is_kernels i j || not (has_bit present e) then (m, true) else copied)

unfoldable pub copy_tables : ℕ → ℕ → Machine → Machine × Bool
unfolding for_success copy_pdpt
copy_tables dst src = for_success 256 0 (λ i m.
    let e = m.table src i in
    let copied = copy_pdpt dst i (base_of e) m in if has_bit present e then copied else (m, true))

-- `copy_address_space`
unfoldable pub copy_address_space : Region → List Region → ℕ → Machine → Machine × Option ℕ
unfolding create_address_space copy_tables free_address_space
copy_address_space fb regions src m =
    let (m1, pml4) = create_address_space fb regions m in
    elim pml4 [
      | none ↦ (m1, none)
      | some dst ↦
          let (m2, ok) = copy_tables dst src m1 in
          if ok then (m2, some dst) else (free_address_space dst m2, none)
    ]
