-- ===== src/Cfg/Marks.antt =====
-- crates/slopic-core/src/cfg.rs: what the marks of `live_intervals` cover.
use slopium.Base.{
  ℕ, ◌≤◌, ◌<◌, ◌≡◌, inl, inr, sym, ◌∙◌, subst, true, false, arith, leb, min, max, Bool-cases,
  eq-or-ne, length, get_or, set, length-set, get_or-set_self, get_or-set_ne,
}
use slopium.Mir.{LocalId}
use slopium.Cfg.Intervals.{Ranges, mark}

-- The range of the local is open and holds the position.
pub record Covers (r : Ranges) (l : LocalId) (at : ℕ) : Type 0 where
  pub opened : get_or r.seen l false ≡ true
  pub from : get_or r.first l 0 ≤ at
  pub to : at ≤ get_or r.last l 0

-- The vectors are as long as the function has locals.
pub record IsRanges (locals : ℕ) (r : Ranges) : Type 0 where
  pub firsts : length r.first ≡ locals
  pub lasts : length r.last ≡ locals
  pub seens : length r.seen ≡ locals

abbrev pub Extends : Ranges → Ranges → Type 0
Extends r r' = (l at : ℕ) → Covers r l at → Covers r' l at

module _ (locals : ℕ) where
  pub mark-IsRanges : (l at : ℕ) (r : Ranges) → IsRanges locals r → IsRanges locals (mark l at r)
  unfolding mark
  mark-IsRanges l at r h = elim (Bool-cases (leb (length r.seen) l)) [
    | inl out ↦ rw out h
    | inr inside ↦ rw inside (record {
      firsts = length-set r.first l (min (get_or r.first l 0) at) ∙ h.firsts;
      lasts = length-set r.last l (max (get_or r.last l 0) at) ∙ h.lasts;
      seens = length-set r.seen l true ∙ h.seens;
    })
  ]

  mark-inside :
      (l at : ℕ) (r : Ranges) → IsRanges locals r → l < locals → leb (length r.seen) l ≡ false
  mark-inside l at r h lt = ground (arith, h.seens)

  -- A mark covers its position.
  pub mark-Covers :
      (l at : ℕ) (r : Ranges) → IsRanges locals r → l < locals → Covers (mark l at r) l at
  unfolding mark
  mark-Covers l at r h lt = rw (mark-inside l at r h lt) (record {
    opened = get_or-set_self r.seen l true false (omega (arith, h.seens));
    from =
        subst (λ k. k ≤ at)
          (sym
            (get_or-set_self r.first l (min (get_or r.first l 0) at) 0 (omega (arith, h.firsts))))
          (omega arith);
    to =
        subst (λ k. at ≤ k)
          (sym (get_or-set_self r.last l (max (get_or r.last l 0) at) 0 (omega (arith, h.lasts))))
          (omega arith);
  })

  -- A mark keeps what is covered.
  pub mark-Extends : (l at : ℕ) (r : Ranges) → IsRanges locals r → Extends r (mark l at r)
  unfolding mark
  mark-Extends l at r h m p c = elim (Bool-cases (leb (length r.seen) l)) [
    | inl out ↦ rw out c
    | inr inside ↦ rw inside (elim (eq-or-ne l m) [
      | inl e ↦ same e (ground (arith, h.seens))
      | inr ne ↦ record {
        opened = get_or-set_ne r.seen l m true false ne ∙ c.opened;
        from =
            subst (λ k. k ≤ p) (sym (get_or-set_ne r.first l m (min (get_or r.first l 0) at) 0 ne))
              c.from;
        to =
            subst (λ k. p ≤ k) (sym (get_or-set_ne r.last l m (max (get_or r.last l 0) at) 0 ne))
              c.to;
      }
    ])
  ]
    where
      marked : Ranges
      marked = record {
        first = set r.first l (min (get_or r.first l 0) at);
        last = set r.last l (max (get_or r.last l 0) at);
        seen = set r.seen l true;
      }

      same : l ≡ m → l < locals → Covers marked m p
      same e lt =
          subst (λ k. Covers marked k p) e
            (record {
              opened = get_or-set_self r.seen l true false (omega (arith, h.seens));
              from =
                  subst (λ k. k ≤ p)
                    (sym (
                      get_or-set_self r.first l (min (get_or r.first l 0) at) 0
                        (omega (arith, h.firsts))))
                    (omega (arith, subst (λ k. get_or r.first k 0 ≤ p) (sym e) c.from));
              to =
                  subst (λ k. p ≤ k)
                    (sym (
                      get_or-set_self r.last l (max (get_or r.last l 0) at) 0
                        (omega (arith, h.lasts))))
                    (omega (arith, subst (λ k. p ≤ get_or r.last k 0) (sym e) c.to));
            })
