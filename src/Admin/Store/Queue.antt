-- ===== src/Admin/Store/Queue.antt =====
-- What a queued write leaves.
use anti_bot_gw.Common.{
  Option, none, some, List, [], ◌∷◌, ◌++◌, ◌≡◌, refl, arith, ◌⊎◌, inl, inr, Option-cases,
}
use anti_bot_gw.Admin.Store.{Store, Write, push, put_nowait, put_or_drop}

-- Where the queue is there, it has the write at its end; else nothing changes.
abbrev pub Queued : Write → Option (List Write) → Option (List Write) → Type 0
Queued w before after =
    ((before ≡ none) × (after ≡ none))
    ⊎ ((ws : List Write) × (before ≡ some ws) × (after ≡ some (ws ++ w ∷ [])))

push-Queued : (w : Write) (q r : Option (List Write)) → push w q ≡ some r → Queued w q r
push-Queued w none r h = inl (refl, ground (arith, h))
push-Queued w (some ws) r h = inr (ws, refl, ground (arith, h))

pub put_nowait-Queued :
    (w : Write) (s t : Store)
    → put_nowait w s ≡ some t
    → Queued w s.queue t.queue × (t.cache ≡ s.cache) × (t.ready ≡ s.ready)
unfolding put_nowait
put_nowait-Queued w s t h = elim (Option-cases (push w s.queue)) [
  | inl e ↦ absurd (ground (arith, h, e))
  | inr (q, e) ↦
      let is_t : record s { queue = q } ≡ t = ground (arith, h, e) in
      rw (← is_t) (push-Queued w s.queue q e, refl, refl)
]

pub put_or_drop-Queued :
    (w : Write) (s : Store)
    → ((put_or_drop w s).queue ≡ s.queue) ⊎ Queued w s.queue (put_or_drop w s).queue
unfolding put_or_drop
put_or_drop-Queued w s = elim (Option-cases (push w s.queue)) [
  | inl e ↦ inl (rw (put_or_drop, put_nowait, e) refl)
  | inr (q, e) ↦ inr (rw (put_or_drop, put_nowait, e) (push-Queued w s.queue q e))
]
