-- ===== src/Vst/Page.antt =====
-- vst/src/vpage.h and vpage.c: a page of host sectors or of metadata. Metadata is kept in 32-bit
-- cells, 128 to a sector. What `malloc` returns is unknown: `junk` stands for it.
use optr_jasmine.Prelude.{
  ℕ, ◌+◌, ◌*◌, Bool, true, false, Option, none, some, ◌&&◌, if◌then◌else◌, ltb, leb, minus_one,
  assert, ◌>>◌,
}
use optr_jasmine.Config.{sectors_per_page}

abbrev pub cells_per_sector : ℕ
cells_per_sector = 128

-- `vsector_t`
pub record Sector : Type 0 where
  pub lba : ℕ
  pub ver : ℕ

-- `vpage_t`; `cells` is `data`, and `none` is NULL.
pub record VPage : Type 0 where
  pub tagged : Bool
  pub cells : Option (ℕ → ℕ)
  pub sects : ℕ → Sector

unfoldable pub tag_page : VPage → VPage
tag_page pp = if pp.tagged then pp else record pp {
  tagged = true;
  sects = λ i.
      if ltb i sectors_per_page
      then record { lba = minus_one; ver = (pp.sects i).ver }
      else pp.sects i;
}

unfoldable pub untag_page : VPage → VPage
untag_page pp = record pp { tagged = false }

unfoldable pub vpage_init : VPage → Option (ℕ → ℕ) → VPage
vpage_init pp cells = record pp { tagged = false; cells = cells }

-- `i` lies in [start, start + n).
abbrev pub in_range : ℕ → ℕ → ℕ → Bool
in_range start n i = leb start i && ltb i (start + n)

-- memcpy of `n` elements from `start` on, at the same place in both arrays.
abbrev pub splice {ℓ} : {A : Type ℓ} → (ℕ → A) → (ℕ → A) → ℕ → ℕ → ℕ → A
splice dst src start n i = if in_range start n i then src i else dst i

-- A buffer, or what stands in its place where it is NULL.
abbrev pub or_else : (ℕ → ℕ) → Option (ℕ → ℕ) → ℕ → ℕ
or_else d none = d
or_else d (some c) = c

unfoldable pub vpage_copy : (ℕ → ℕ) → VPage → VPage → ℕ → ℕ → Option VPage
unfolding tag_page untag_page
vpage_copy junk dst src sect n_sect = do
  assert (leb (sect + n_sect) sectors_per_page)
  let host = tag_page dst
  let meta = untag_page dst
  if src.tagged
      then some (record host { sects = splice host.sects src.sects sect n_sect })
      else some (record meta {
        cells = some (
            splice (or_else junk dst.cells) (or_else (λ _. minus_one) src.cells)
              (sect * cells_per_sector) (n_sect * cells_per_sector));
      })

unfoldable pub vpage_free : VPage → VPage
vpage_free pp = record pp { tagged = false; cells = none }
