-- ===== src/Ftl/Host/Split.antt =====
-- How the host's commands go over the pages of a request.
use optr_jasmine.Prelude.{
  ℕ, zero, suc, ◌+◌, ◌-◌, ◌*◌, ◌/◌, ◌%◌, ◌≤◌, ◌<◌, ◌≡◌, ◌⊎◌, inl, inr, refl, sym, subst, ◌∙◌, arith,
  Option, some, none, ◌>>=◌, if◌then◌else◌, ◌==◌, Bool-cases, List, [], ◌∷◌,
}
use optr_jasmine.Config.{sectors_per_page}
use optr_jasmine.Stat.{stat_host_read, stat_record_para}
use optr_jasmine.Ftl.{Ftl, on_stats}
use optr_jasmine.Ftl.Host.{page_sects, read_page, read_rounds, ftl_read, write_page, write_rounds}
use optr_jasmine.Ftl.Dequeue.{pool_write_buf}

abbrev word : ℕ
word = 4294967296

-- The part of a request that lies in one page.
pub record Part : Type 0 where
  pub lpn : ℕ
  pub base_sect : ℕ
  pub cnt_sect : ℕ

-- The sectors of `n` in a row from `sect` of page `lpn` on, one part for each page.
unfoldable pub parts : ℕ → ℕ → ℕ → ℕ → List Part
unfolding page_sects
parts zero lpn base remain = []
parts (suc fuel) lpn base remain =
    let cnt = page_sects base remain in
    let rest = parts fuel (lpn + 1) 0 (remain - cnt) in
    if remain == 0 then [] else record { lpn = lpn; base_sect = base; cnt_sect = cnt } ∷ rest

-- The parts follow each other from sector `from` to sector `to`, none is empty, and each lies in its
-- page.
pub Covers : ℕ → List Part → ℕ → Type 0
Covers from [] to = from ≡ to
Covers from (p ∷ ps) to =
    (p.lpn * sectors_per_page + p.base_sect ≡ from)
    × (0 < p.cnt_sect)
    × (p.base_sect + p.cnt_sect ≤ sectors_per_page)
    × Covers (from + p.cnt_sect) ps to

part_step :
    (base remain : ℕ)
    → base < sectors_per_page
    → 0 < remain
    → base + remain < word
    → (0 < page_sects base remain)
      × (base + page_sects base remain ≤ sectors_per_page)
      × (page_sects base remain ≤ remain)
      × ((page_sects base remain ≡ remain) ⊎ (base + page_sects base remain ≡ sectors_per_page))
unfolding page_sects
part_step base remain h p small = ground arith

base_next :
    (base remain : ℕ) (lpn : ℕ)
    → (page_sects base remain ≡ remain) ⊎ (base + page_sects base remain ≡ sectors_per_page)
    → (remain - page_sects base remain ≡ 0)
      ⊎ ((lpn + 1) * sectors_per_page + 0 ≡ lpn * sectors_per_page + base + page_sects base remain)
base_next base remain lpn (inl e) = inl (omega arith)
base_next base remain lpn (inr e) = inr (omega arith)

parts_none : (fuel lpn base : ℕ) → parts fuel lpn base 0 ≡ []
unfolding parts
parts_none zero lpn base = refl
parts_none (suc fuel) lpn base = refl

parts-Covers :
    (fuel lpn base remain : ℕ)
    → base < sectors_per_page
    → remain ≤ fuel
    → base + remain < word
    → Covers
        (lpn * sectors_per_page + base)
        (parts fuel lpn base remain)
        (lpn * sectors_per_page + base + remain)
unfolding parts Covers
parts-Covers zero lpn base remain h b w = omega arith
parts-Covers (suc fuel) lpn base remain h b w = elim (Bool-cases (remain == 0)) [
  | inl z ↦ rw z (ground arith)
  | inr nz ↦
      let cnt = page_sects base remain in
      let (pos, fits, small, next) = part_step base remain h (ground arith) w in
      rw nz (
        refl,
        pos,
        fits,
        elim (base_next base remain lpn next) [
          | inl done ↦
              let none_left = parts_none fuel (lpn + 1) 0 in rw (done, none_left) (omega arith)
          | inr whole ↦
              let e : lpn * sectors_per_page + base + remain
                  ≡ (lpn + 1) * sectors_per_page + 0 + (remain - cnt) =
                omega arith in
              rw (← whole, e)
                (parts-Covers fuel (lpn + 1) 0 (remain - cnt) (omega arith) (omega arith)
                  (omega arith))
        ],
      )
]

-- One step for each part.
unfoldable pub for_parts : (Part → Ftl → Option Ftl) → List Part → Ftl → Option Ftl
for_parts step [] s = some s
for_parts step (p ∷ ps) s = step p s >>= for_parts step ps

abbrev pub read_part_of : Part → Ftl → Option Ftl
read_part_of p s = read_page p.lpn p.base_sect p.cnt_sect (on_stats (stat_record_para 0) s)

abbrev pub write_part_of : Part → Ftl → Option Ftl
write_part_of p s = pool_write_buf s >>= λ s1.
    write_page p.lpn p.base_sect p.cnt_sect (on_stats (stat_record_para 0) s1)

bind_same :
    (m : Option Ftl) (f g : Ftl → Option Ftl) → ((s : Ftl) → f s ≡ g s) → (m >>= f) ≡ (m >>= g)
bind_same none f g h = refl
bind_same (some s) f g h = h s

bind_assoc : (m : Option Ftl) (f g : Ftl → Option Ftl) → ((m >>= f) >>= g) ≡ (m >>= λ s. f s >>= g)
bind_assoc none f g = refl
bind_assoc (some s) f g = refl

read_rounds-parts :
    (fuel lpn base remain : ℕ) (s : Ftl)
    → base < sectors_per_page
    → remain ≤ fuel
    → base + remain < word
    → read_rounds fuel lpn base remain s ≡ for_parts read_part_of (parts fuel lpn base remain) s
unfolding read_rounds parts for_parts
read_rounds-parts zero lpn base remain s h b w = let z : remain ≡ 0 = omega arith in rw z refl
read_rounds-parts (suc fuel) lpn base remain s h b w = elim (Bool-cases (remain == 0)) [
  | inl z ↦ let e : remain ≡ 0 = ground arith in rw (read_rounds, e) refl
  | inr nz ↦
      let (pos, fits, small, next) = part_step base remain h (ground arith) w in
      rw (read_rounds, nz)
        (bind_same (read_page lpn base (page_sects base remain) (on_stats (stat_record_para 0) s)) _
          _
          (λ t.
            read_rounds-parts fuel (lpn + 1) 0 (remain - page_sects base remain) t (omega arith)
              (omega arith) (omega arith)))
]

write_rounds-parts :
    (fuel lpn base remain : ℕ) (s : Ftl)
    → base < sectors_per_page
    → remain ≤ fuel
    → base + remain < word
    → write_rounds fuel lpn base remain s ≡ for_parts write_part_of (parts fuel lpn base remain) s
unfolding write_rounds parts for_parts
write_rounds-parts zero lpn base remain s h b w = let z : remain ≡ 0 = omega arith in rw z refl
write_rounds-parts (suc fuel) lpn base remain s h b w = elim (Bool-cases (remain == 0)) [
  | inl z ↦ let e : remain ≡ 0 = ground arith in rw (write_rounds, e) refl
  | inr nz ↦
      let (pos, fits, small, next) = part_step base remain h (ground arith) w in
      let cnt = page_sects base remain in
      let step : Ftl → Option Ftl =
        λ s1. write_page lpn base cnt (on_stats (stat_record_para 0) s1) in
      rw (write_rounds, nz)
        (bind_same (pool_write_buf s) _ _ (λ s1. bind_same (step s1) _ _ (λ t.
            write_rounds-parts fuel (lpn + 1) 0 (remain - cnt) t (omega arith) (omega arith)
              (omega arith)))
          ∙ sym (bind_assoc (pool_write_buf s) step _))
]

-- The parts of a request for `n` sectors from `lba` on.
abbrev pub parts_of : ℕ → ℕ → List Part
parts_of lba n = parts n (lba / sectors_per_page) (lba % sectors_per_page) n

parts_of-Covers : (lba n : ℕ) → lba + n < word → Covers lba (parts_of lba n) (lba + n)
parts_of-Covers lba n w =
    let e : lba / sectors_per_page * sectors_per_page + lba % sectors_per_page ≡ lba =
      omega arith in
    subst (λ x. Covers x (parts_of lba n) (x + n)) e
      (parts-Covers n (lba / sectors_per_page) (lba % sectors_per_page) n (omega arith)
        (omega arith) (omega arith))

-- A read of `n` sectors that ends below sector 2^32 reads page after page, and its fuel is enough
-- for that: the parts follow
-- each other from sector `lba` to sector `lba + n` without a gap, each of them lies in one page and
-- is not empty, and each is read with `read_page` once, in order, until one stops the program.
pub ftl_read-parts :
    (lba n : ℕ) (s : Ftl)
    → lba + n < word
    → (ftl_read lba n s ≡ for_parts read_part_of (parts_of lba n) (on_stats (stat_host_read n) s))
      × Covers lba (parts_of lba n) (lba + n)
unfolding ftl_read
ftl_read-parts lba n s w = (
  read_rounds-parts n (lba / sectors_per_page) (lba % sectors_per_page) n
      (on_stats (stat_host_read n) s) (omega arith) (omega arith) (omega arith),
  parts_of-Covers lba n w,
)

-- The page loop of a write of `n` sectors from `lba` on that ends below sector 2^32, before garbage collection and checkpoint:
-- the same parts as a read has, each written with `write_page` once, in order, after one call of
-- `pool_write_buf`, until one stops the program.
pub write_rounds-parts_of :
    (lba n : ℕ) (s : Ftl)
    → lba + n < word
    → (write_rounds n (lba / sectors_per_page) (lba % sectors_per_page) n s
        ≡ for_parts write_part_of (parts_of lba n) s)
      × Covers lba (parts_of lba n) (lba + n)
write_rounds-parts_of lba n s w = (
  write_rounds-parts n (lba / sectors_per_page) (lba % sectors_per_page) n s (omega arith)
      (omega arith) (omega arith),
  parts_of-Covers lba n w,
)
