-- ===== src/ChannelCache/Age.antt =====
-- Pruning by age in db/channel_cache.go.
use sync_gateway.Prelude.{
  ℕ, zero, suc, ◌-◌, ◌<◌, ◌≤◌, ◌≡◌, refl, ◌∙◌, true, false, List, arith, leb, length, Bool-cases,
  inl, inr, ap,
}
use sync_gateway.LogEntry.{LogEntry}
use sync_gateway.ChannelCache.{ChannelCache, Options, prune_to}
use sync_gateway.ChannelCache.Purge.{may_prune, prune_age_loop, prune_cache_age}
use sync_gateway.ChannelCache.Valid.{IsOrdered, IsValid}
use sync_gateway.ChannelCache.Prune.{visible, prune_to-IsOrdered, seq_of-prune_to}
use sync_gateway.ChannelCache.Complete.{latest, IsComplete}

prune_to-IsComplete :
    (c : ChannelCache) (h : List LogEntry) (n : ℕ)
    → n < length c.logs
    → IsOrdered c
    → IsComplete c h
    → IsComplete (prune_to n c) h
prune_to-IsComplete c h n over v k d =
    let (s, le) = seq_of-prune_to c n over v d in s ∙ rw (k d) (again (prune_to n c).valid_from le)
  where
    again :
        (w : ℕ)
        → c.valid_from ≤ w
        → visible w (visible c.valid_from (latest d h)) ≡ visible w (latest d h)
    again w le = ground (arith, v.positive)

-- What the loop promises of its result.
pub record Pruned (now : ℕ) (c r : ChannelCache) (h : List LogEntry) : Type 0 where
  pub ordered : IsOrdered r
  pub complete : IsComplete r h
  pub options : r.options ≡ c.options
  pub shrinks : length r.logs ≤ length c.logs
  pub keeps : c.options.min_length ≤ length c.logs → c.options.min_length ≤ length r.logs
  pub done : may_prune now r ≡ false

may_prune_longer :
    (now : ℕ) (c : ChannelCache) → may_prune now c ≡ true → c.options.min_length < length c.logs
unfolding may_prune
may_prune_longer now c h = ground arith

may_prune_empty : (now : ℕ) (c : ChannelCache) → length c.logs ≤ 0 → may_prune now c ≡ false
unfolding may_prune
may_prune_empty now c h = ground arith

loop-Pruned :
    (fuel now : ℕ) (c : ChannelCache) (h : List LogEntry)
    → length c.logs ≤ fuel
    → IsOrdered c
    → IsComplete c h
    → Pruned now c (prune_age_loop fuel now c) h
unfolding prune_age_loop
loop-Pruned zero now c h f v k = record {
  ordered = v;
  complete = k;
  options = refl;
  shrinks = omega arith;
  keeps = λ le. le;
  done = may_prune_empty now c f;
}
loop-Pruned (suc fuel) now c h f v k = elim (Bool-cases (may_prune now c)) [
  | inl more ↦
      let longer = may_prune_longer now c more in
      let over : length c.logs - 1 < length c.logs = omega arith in
      let (w, l, o) = prune_to-IsOrdered c (length c.logs - 1) over v in
      let m = ap (λ (p : Options). p.min_length) o in
      let i =
        loop-Pruned fuel now (prune_to (length c.logs - 1) c) h (omega arith) w
          (prune_to-IsComplete c h (length c.logs - 1) over v k) in
      rw more (record {
        ordered = i.ordered;
        complete = i.complete;
        options = i.options ∙ o;
        shrinks = omega (arith, i.shrinks, l);
        keeps = λ le. omega (arith, i.keeps (omega (arith, m, l)), m);
        done = i.done;
      })
  | inr end ↦ rw end (record {
    ordered = v;
    complete = k;
    options = refl;
    shrinks = omega arith;
    keeps = λ le. le;
    done = end;
  })
]

-- Pruning by age keeps a valid cache valid and complete, keeps `ChannelCacheMinLength` entries if
-- there were as many, and, unless that is not below `ChannelCacheMaxLength`, ends with as few or with
-- an oldest entry young enough.
pub prune_cache_age-IsComplete :
    (now : ℕ) (c : ChannelCache) (h : List LogEntry)
    → IsValid c
    → IsComplete c h
    → let r = prune_cache_age now c in
      IsValid r
      × IsComplete r h
      × (c.options.min_length ≤ length c.logs → c.options.min_length ≤ length r.logs)
      × (c.options.min_length < c.options.max_length → may_prune now r ≡ false)
unfolding prune_cache_age
prune_cache_age-IsComplete now c h v k =
    elim (Bool-cases (leb c.options.max_length c.options.min_length)) [
      | inl same ↦ rw same (v, k, λ le. le, λ lt. absurd (ground arith))
      | inr apart ↦
          let p = loop-Pruned (length c.logs) now c h (omega arith) v.ordered k in
          let m = ap (λ (o : Options). o.max_length) p.options in
          rw apart (
            record { ordered = p.ordered; bounded = omega (arith, p.shrinks, m, v.bounded) },
            p.complete,
            p.keeps,
            λ lt. p.done,
          )
    ]
