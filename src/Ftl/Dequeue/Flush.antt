-- ===== src/Ftl/Dequeue/Flush.antt =====
-- Which buffer `dequeue` writes out.
use optr_jasmine.Prelude.{
  ℕ, ◌<◌, ◌≡◌, ◌⊎◌, inl, inr, refl, ◌∙◌, true, false, some, none, All, if_false, ==_refl,
}
use optr_jasmine.Config.{num_cache_buffers_per_bank}
use optr_jasmine.Cache.{Cache, is_dirty, no_buf, on_cache, flush_victim}
use optr_jasmine.Cache.Lru.{Split}
use optr_jasmine.Cache.Inv.{IsCache, flush_victim-FlushChoice}
use optr_jasmine.Ftl.{Ftl, on_caches}
use optr_jasmine.Ftl.Dequeue.{dequeue, write_out}
use optr_jasmine.Ftl.Dequeue.Write.{CanWrite, WroteOut, write_out-WroteOut}

-- The bank's cache when no transfer into it is under way.
abbrev pub settled : Cache → Cache
settled c = record c { buf_id_incomplete = no_buf }

abbrev pub settle : ℕ → Ftl → Ftl
settle bank = on_caches (on_cache bank settled)

pub settled-IsCache : (c : Cache) → IsCache c → IsCache (settled c)
settled-IsCache c v = record { lru = v.lru; lru_length = v.lru_length; counted = v.counted }

dequeue-none :
    (bank : ℕ) (s : Ftl)
    → (s.caches.banks bank).stall ≡ false
    → flush_victim (settled (s.caches.banks bank)) ≡ none
    → dequeue bank s ≡ some (true, settle bank s)
unfolding dequeue
dequeue-none bank s h e = if_false (s.caches.banks bank).stall _ _ h ∙ rw (==_refl bank, e) refl

dequeue-some :
    (bank idx : ℕ) (s : Ftl) {s' : Ftl}
    → (s.caches.banks bank).stall ≡ false
    → flush_victim (settled (s.caches.banks bank)) ≡ some idx
    → write_out bank idx (settle bank s) ≡ some s'
    → dequeue bank s ≡ some (false, s')
unfolding dequeue
dequeue-some bank idx s h e w =
    if_false (s.caches.banks bank).stall _ _ h ∙ rw (==_refl bank, e, w) refl

-- `dequeue` on a bank that is not stalled and whose cache has its invariant, if the bank can write
-- out whatever is dirty (each dirty buffer's page has its old place counted, the next page of the
-- open block is an erased data page, so the block is not full, the log has room, and the firmware
-- does not run without data): either every buffer is clean, and it reports that nothing is left, or it
-- writes out a dirty buffer behind which no buffer in the order of use is dirty, and reports that
-- more may be left.
pub dequeue-WroteOut :
    (bank : ℕ) (s : Ftl)
    → IsCache (s.caches.banks bank)
    → (s.caches.banks bank).stall ≡ false
    → ((idx : ℕ) → is_dirty (s.caches.banks bank) idx ≡ true → CanWrite bank idx (settle bank s))
    → (((j : ℕ) → j < num_cache_buffers_per_bank → is_dirty (s.caches.banks bank) j ≡ false)
        × (dequeue bank s ≡ some (true, settle bank s)))
      ⊎ ((idx : ℕ) × (is_dirty (s.caches.banks bank) idx ≡ true)
          × ((b : Split idx (s.caches.banks bank).lru_list) × All
                (λ x. is_dirty (s.caches.banks bank) x ≡ false)
                b.after)
          × (s' : Ftl) × (dequeue bank s ≡ some (false, s'))
          × WroteOut bank idx (settle bank s) s')
dequeue-WroteOut bank s v h can =
    elim (flush_victim-FlushChoice (settled (s.caches.banks bank))
      (settled-IsCache (s.caches.banks bank) v)) [
        | inl (e, clean) ↦ inl (clean, dequeue-none bank s h e)
        | inr (idx, e, dirty, b, after) ↦
            let (s', w, wrote) = write_out-WroteOut bank idx (settle bank s) (can idx dirty) in
            inr (idx, dirty, (b, after), s', dequeue-some bank idx s h e w, wrote)
      ]
