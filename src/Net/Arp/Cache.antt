-- ===== src/Net/Arp/Cache.antt =====
-- What `arp_cache_lookup` finds after `arp_cache_add`.
use utms.Base.{
  ℕ, suc, ◌<◌, ◌≡◌, refl, arith, Bool, true, false, ◌&&◌, List, [], ◌∷◌, ◌++◌, Option, none, some,
  ap, length, length-append, if◌then◌else◌, ◌==◌, Bool-cases, inl, inr, drop,
}
use utms.Net.State.{ArpEntry}
use utms.Net.Arp.{lookup, fill_slot, shift, add, entry}

-- The valid entries stand before the free slots.
abbrev pub IsFree : List ArpEntry → Type 0
IsFree [] = Unit {0}
IsFree (e ∷ es) = (e.valid ≡ false) × IsFree es

pub data IsPacked : List ArpEntry → Type 0 where
  free : {es : List ArpEntry} → IsFree es → IsPacked es
  used : {e : ArpEntry} {es : List ArpEntry} → e.valid ≡ true → IsPacked es → IsPacked (e ∷ es)

-- An older answer wins over a newer one.
abbrev pub or_else : Option (List ℕ) → Option (List ℕ) → Option (List ℕ)
or_else none b = b
or_else (some a) b = some a

abbrev pub answer : ℕ → ℕ → List ℕ → Option (List ℕ)
answer q ip mac = if ip == q then some mac else none

abbrev pub is_full : List ArpEntry → Bool
is_full [] = true
is_full (e ∷ es) = e.valid && is_full es

abbrev pub evicted : List ArpEntry → List ArpEntry
evicted c = if is_full c then drop 1 c else c

lookup-IsFree : (q : ℕ) (es : List ArpEntry) → IsFree es → lookup q es ≡ none
unfolding lookup
lookup-IsFree q [] h = refl
lookup-IsFree q (e ∷ es) h = ground (arith, lookup-IsFree q es h.1)

lookup-append :
    (q : ℕ) (e : ArpEntry) (es : List ArpEntry)
    → lookup q (es ++ (e ∷ [])) ≡ or_else (lookup q es) (lookup q (e ∷ []))
unfolding lookup
lookup-append q e [] = refl
lookup-append q e (d ∷ es) = ground (arith, lookup-append q e es)

fill_slot-is_full : (n : ArpEntry) (es : List ArpEntry) → is_full es ≡ true → fill_slot n es ≡ none
unfolding fill_slot
fill_slot-is_full n [] h = refl
fill_slot-is_full n (e ∷ es) h = ground (arith, fill_slot-is_full n es)

-- The free slot that `arp_cache_add` finds.
record Filled (q ip : ℕ) (mac : List ℕ) (es c : List ArpEntry) : Type 0 where
  found : fill_slot (entry ip mac) es ≡ some c
  answers : lookup q c ≡ or_else (lookup q es) (answer q ip mac)
  size : length c ≡ length es
  packed : IsPacked c

fill_first :
    (q ip : ℕ) (mac : List ℕ) (e : ArpEntry) (es : List ArpEntry)
    → e.valid ≡ false
    → IsFree es
    → Filled q ip mac (e ∷ es) (entry ip mac ∷ es)
unfolding fill_slot lookup
fill_first q ip mac e es h f = record {
  found = ground arith;
  answers = ground (arith, lookup-IsFree q es f);
  size = refl;
  packed = used refl (free f);
}

fill_rest :
    (q ip : ℕ) (mac : List ℕ) (e : ArpEntry) (es c : List ArpEntry)
    → e.valid ≡ true
    → Filled q ip mac es c
    → Filled q ip mac (e ∷ es) (e ∷ c)
unfolding fill_slot lookup
fill_rest q ip mac e es c h f = record {
  found = ground arith;
  answers = ground arith;
  size = ap suc f.size;
  packed = used h f.packed;
}

fill_slot-Filled :
    (q ip : ℕ) (mac : List ℕ) (es : List ArpEntry)
    → IsPacked es
    → is_full es ≡ false
    → (c : List ArpEntry) × Filled q ip mac es c
fill_slot-Filled q ip mac [] (free f) h = cc
fill_slot-Filled q ip mac (e ∷ es) (free f) h =
    (entry ip mac ∷ es, fill_first q ip mac e es f.0 f.1)
fill_slot-Filled q ip mac (e ∷ es) (used v p) h =
    let (c, f) = fill_slot-Filled q ip mac es p (ground arith) in
    (e ∷ c, fill_rest q ip mac e es c v f)

IsPacked-append :
    (e : ArpEntry) (es : List ArpEntry)
    → e.valid ≡ true
    → is_full es ≡ true
    → IsPacked (es ++ (e ∷ []))
IsPacked-append e [] v h = used v (free tt)
IsPacked-append e (d ∷ es) v h = used (ground arith) (IsPacked-append e es v (ground arith))

length-shift : (e : ArpEntry) (es : List ArpEntry) → length (shift e es) ≡ length es
unfolding shift
length-shift e [] = refl
length-shift e (d ∷ es) = omega (arith, length-append es (e ∷ []))

add-full :
    (ip : ℕ) (mac : List ℕ) (cache : List ArpEntry)
    → is_full cache ≡ true
    → add ip mac cache ≡ shift (entry ip mac) cache
unfolding add
add-full ip mac cache h = ground (arith, fill_slot-is_full (entry ip mac) cache h)

add-room :
    (ip : ℕ) (mac : List ℕ) (cache c : List ArpEntry)
    → fill_slot (entry ip mac) cache ≡ some c
    → add ip mac cache ≡ c
unfolding add
add-room ip mac cache c h = ground arith

lookup-shift :
    (q ip : ℕ) (mac : List ℕ) (e : ArpEntry) (es : List ArpEntry)
    → lookup q (shift (entry ip mac) (e ∷ es)) ≡ or_else (lookup q es) (answer q ip mac)
unfolding lookup shift
lookup-shift q ip mac e es = ground (arith, lookup-append q (entry ip mac) es)

-- What `arp_cache_add` makes of a cache.
record Added (q ip : ℕ) (mac : List ℕ) (cache c : List ArpEntry) : Type 0 where
  answers : lookup q c ≡ or_else (lookup q (evicted cache)) (answer q ip mac)
  size : length c ≡ length cache
  packed : IsPacked c

shift-Added :
    (q ip : ℕ) (mac : List ℕ) (cache : List ArpEntry)
    → is_full cache ≡ true
    → 0 < length cache
    → Added q ip mac cache (shift (entry ip mac) cache)
unfolding shift
shift-Added q ip mac [] h n = absurd (omega arith)
shift-Added q ip mac (e ∷ es) h n = record {
  answers = rw h (lookup-shift q ip mac e es);
  size = length-shift (entry ip mac) (e ∷ es);
  packed = IsPacked-append (entry ip mac) es refl (ground arith);
}

add-Added :
    (q ip : ℕ) (mac : List ℕ) (cache : List ArpEntry)
    → IsPacked cache
    → 0 < length cache
    → Added q ip mac cache (add ip mac cache)
add-Added q ip mac cache p n = elim (Bool-cases (is_full cache)) [
  | inl full ↦ rw (add-full ip mac cache full) (shift-Added q ip mac cache full n)
  | inr room ↦
      let (c, f) = fill_slot-Filled q ip mac cache p room in
      rw (add-room ip mac cache c f.found)
        (record { answers = rw room (f.answers); size = f.size; packed = f.packed })
]

-- In a cache of at least one slot whose valid entries stand before the free ones: after
-- `arp_cache_add` a lookup gives the oldest entry kept for the address, and the added one
-- where there is none: a full cache first loses its oldest entry. The cache keeps its size and its
-- packed form.
pub lookup-add :
    (q ip : ℕ) (mac : List ℕ) (cache : List ArpEntry)
    → IsPacked cache
    → 0 < length cache
    → (lookup q (add ip mac cache) ≡ or_else (lookup q (evicted cache)) (answer q ip mac))
      × (length (add ip mac cache) ≡ length cache)
      × IsPacked (add ip mac cache)
lookup-add q ip mac cache p n =
    let a = add-Added q ip mac cache p n in (a.answers, a.size, a.packed)
