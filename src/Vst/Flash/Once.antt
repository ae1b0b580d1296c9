-- ===== src/Vst/Flash/Once.antt =====
-- A page of the emulated flash takes one write between two erasures of its block.
use optr_jasmine.Prelude.{
  ℕ, ◌+◌, ◌≡◌, refl, ◌∙◌, arith, Bool, true, false, not, ◌&&◌, Option, none, some, ◌>>=◌, is_some,
  Option-cases, inl, inr, leb, ◌==◌, Bool-cases, List, [], ◌∷◌, All,
}
use optr_jasmine.Config.{sectors_per_page}
use optr_jasmine.Vst.Page.{VPage, vpage_copy}
use optr_jasmine.Vst.Flash.{Spare, Flash, vst_write_page, vst_copyback_page, vst_erase_block}
use optr_jasmine.Vst.Flash.Access.{write-Wrote, copyback-elsewhere}

-- A call that changes the flash.
pub data FlashOp : Type 0 where
  write : (bank blk page sect n : ℕ) → VPage → Spare → FlashOp
  copyback : (bank blk_src page_src blk_dst page_dst : ℕ) → Spare → FlashOp
  erase : (bank blk : ℕ) → FlashOp

unfoldable pub apply_op : FlashOp → Flash → Option Flash
apply_op (write bank blk page sect n src spare) f = vst_write_page f bank blk page sect n src spare
apply_op (copyback bank blk_src page_src blk_dst page_dst spare) f =
    vst_copyback_page f bank blk_src page_src blk_dst page_dst spare
apply_op (erase bank blk) f = some (vst_erase_block f bank blk)

unfoldable pub run_ops : List FlashOp → Flash → Option Flash
unfolding apply_op
run_ops [] f = some f
run_ops (op ∷ ops) f = apply_op op f >>= run_ops ops

-- The call is no erasure of the block.
unfoldable pub spares_blk : ℕ → ℕ → FlashOp → Bool
spares_blk bank blk (write b k p sect n src spare) = true
spares_blk bank blk (copyback b k p k' p' spare) = true
spares_blk bank blk (erase b k) = not (b == bank && k == blk)

module _ (bank blk page : ℕ) where
  write_refused :
      (f : Flash) (sect n : ℕ) (src : VPage) (spare : Spare)
      → (f.pages bank blk page).is_erased ≡ false
      → vst_write_page f bank blk page sect n src spare ≡ none
  unfolding vst_write_page
  write_refused f sect n src spare used = ground (arith, used)

  copyback_refused :
      (f : Flash) (blk_src page_src : ℕ) (spare : Spare)
      → (f.pages bank blk page).is_erased ≡ false
      → vst_copyback_page f bank blk_src page_src blk page spare ≡ none
  unfolding vst_copyback_page
  copyback_refused f blk_src page_src spare used = ground (arith, used)

  apply_op-same :
      (op : FlashOp) (f : Flash) {f' : Flash}
      → (f.pages bank blk page).is_erased ≡ false
      → spares_blk bank blk op ≡ true
      → apply_op op f ≡ some f'
      → f'.pages bank blk page ≡ f.pages bank blk page
  unfolding apply_op spares_blk vst_erase_block
  apply_op-same (write b k p sect n src spare) f used spared e =
      elim (Bool-cases (bank == b && (blk == k && page == p))) [
        | inl same ↦
            let eb : b ≡ bank = ground arith in
            let ek : k ≡ blk = ground arith in
            let ep : p ≡ page = ground arith in
            let no = write_refused f sect n src spare used in
            absurd (ground (arith, e, no, eb, ek, ep))
        | inr other ↦ (write-Wrote f b k p sect n src spare e).elsewhere bank blk page other
      ]
  apply_op-same (copyback b k' p' k p spare) f used spared e =
      elim (Bool-cases (bank == b && (blk == k && page == p))) [
        | inl same ↦
            let eb : b ≡ bank = ground arith in
            let ek : k ≡ blk = ground arith in
            let ep : p ≡ page = ground arith in
            let no = copyback_refused f k' p' spare used in
            absurd (ground (arith, e, no, eb, ek, ep))
        | inr other ↦ copyback-elsewhere f b k' p' k p spare bank blk page e other
      ]
  apply_op-same (erase b k) f used spared e = ground (arith, e, spared)

  run_ops-same :
      (ops : List FlashOp) (f : Flash) {f' : Flash}
      → (f.pages bank blk page).is_erased ≡ false
      → All (λ op. spares_blk bank blk op ≡ true) ops
      → run_ops ops f ≡ some f'
      → f'.pages bank blk page ≡ f.pages bank blk page
  unfolding run_ops
  run_ops-same [] f used spared e = ground (arith, e)
  run_ops-same (op ∷ ops) f {f'} used (here, rest) e = elim (Option-cases (apply_op op f)) [
    | inl z ↦ absurd (ground (arith, e, z))
    | inr (g, got) ↦
        let same = apply_op-same op f used here got in
        let e' : run_ops ops g ≡ some f' = ground (arith, e, got) in
        run_ops-same ops g (rw same used) rest e' ∙ same
  ]

  erase-elsewhere :
      (f : Flash) (b k p : ℕ)
      → (b == bank && k == blk) ≡ false
      → (vst_erase_block f bank blk).pages b k p ≡ f.pages b k p
  unfolding vst_erase_block
  erase-elsewhere f b k p other = ground arith

-- A write that succeeds leaves every page in use as it was, and so does a copy.
pub write-keeps :
    (f : Flash) (b k p sect n : ℕ) (src : VPage) (spare : Spare) {f' : Flash} (bank blk page : ℕ)
    → vst_write_page f b k p sect n src spare ≡ some f'
    → (f.pages bank blk page).is_erased ≡ false
    → f'.pages bank blk page ≡ f.pages bank blk page
unfolding apply_op spares_blk
write-keeps f b k p sect n src spare bank blk page e used =
    apply_op-same bank blk page (write b k p sect n src spare) f used refl e

pub copyback-keeps :
    (f : Flash) (b k' p' k p : ℕ) (spare : Spare) {f' : Flash} (bank blk page : ℕ)
    → vst_copyback_page f b k' p' k p spare ≡ some f'
    → (f.pages bank blk page).is_erased ≡ false
    → f'.pages bank blk page ≡ f.pages bank blk page
unfolding apply_op spares_blk
copyback-keeps f b k' p' k p spare bank blk page e used =
    apply_op-same bank blk page (copyback b k' p' k p spare) f used refl e

-- A write that succeeds uses its page up, and no other page changes. After any further writes,
-- copies and erasures that succeed and do not erase its block, the page is as the write left it,
-- and a write or a copy to it stops the program. Once the block is erased a write to the page is
-- accepted if its sectors lie in the page, and that erasure changes no page of another block.
pub write_once :
    (f : Flash) (bank blk page sect n : ℕ) (src : VPage) (spare : Spare) (ops : List FlashOp)
    {f' f'' : Flash} (sect' n' : ℕ) (src' : VPage) (spare' : Spare) (blk_src page_src : ℕ)
    → vst_write_page f bank blk page sect n src spare ≡ some f'
    → All (λ op. spares_blk bank blk op ≡ true) ops
    → run_ops ops f' ≡ some f''
    → ((b k p : ℕ)
        → (b == bank && (k == blk && p == page)) ≡ false
        → f'.pages b k p ≡ f.pages b k p)
      × (f''.pages bank blk page ≡ f'.pages bank blk page)
      × (vst_write_page f'' bank blk page sect' n' src' spare' ≡ none)
      × (vst_copyback_page f'' bank blk_src page_src blk page spare' ≡ none)
      × (is_some (vst_write_page (vst_erase_block f'' bank blk) bank blk page sect' n' src' spare')
          ≡ leb (sect' + n') sectors_per_page)
      × ((b k p : ℕ)
          → (b == bank && k == blk) ≡ false
          → (vst_erase_block f'' bank blk).pages b k p ≡ f''.pages b k p)
unfolding vst_write_page vst_erase_block vpage_copy
write_once f bank blk page sect n src spare ops {f'} {f''} sect' n' src' spare' blk_src page_src e
      spared ran =
    let w = write-Wrote f bank blk page sect n src spare e in
    let used : (f'.pages bank blk page).is_erased ≡ false = rw w.there refl in
    let same = run_ops-same bank blk page ops f' used spared ran in
    let used' : (f''.pages bank blk page).is_erased ≡ false = rw same used in
    (
      w.elsewhere,
      same,
      write_refused bank blk page f'' sect' n' src' spare' used',
      copyback_refused bank blk page f'' blk_src page_src spare' used',
      ground (arith, w.inside),
      erase-elsewhere bank blk page f'',
    )
