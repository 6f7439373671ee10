-- ===== src/Desktop/Region/Added.antt =====
-- src/desktop/observation.rs: `add_region` loses no region and keeps the limits of the list.
use master_control_program.Base.{
  ◌≡◌, inl, inr, refl, Bool, true, false, none, some, List, [], ◌∷◌, ◌++◌, length, leb, arith,
  Option-cases, Bool-cases, length-append,
}
use master_control_program.Desktop.Region.{Rect, union, extend_last, add_region, max_regions}
use master_control_program.Desktop.Region.Cover.{
  IsInside, IsSized, union-IsInside, IsInside-union, IsInside-refl, IsInside-trans,
}
use master_control_program.Desktop.Region.Listed.{
  AllInside, Within, IsListed, extend_last-Extends, Extends-AllInside, length-Extends,
  Within-Extends, Extends-Within, envelope-IsInside, IsInside-envelope, Within-envelope,
}

AllInside-append :
    (bounds region : Rect) (rs : List Rect)
    → IsInside bounds region
    → AllInside bounds rs
    → AllInside bounds (rs ++ (region ∷ []))
AllInside-append bounds region [] i a = (i, tt)
AllInside-append bounds region (r ∷ rs) i a = (a.0, AllInside-append bounds region rs i a.1)

Within-append : (c region : Rect) (rs : List Rect) → Within c rs → Within c (rs ++ (region ∷ []))
Within-append c region [] w = elim w [ ]
Within-append c region (r ∷ rs) (inl i) = inl i
Within-append c region (r ∷ rs) (inr w) = inr (Within-append c region rs w)

append-Within : (region : Rect) (rs : List Rect) → Within region (rs ++ (region ∷ []))
append-Within region [] = inl (IsInside-refl region)
append-Within region (r ∷ rs) = inr (append-Within region rs)

-- A list that a region was added to.
pub record Added (bounds region : Rect) (before after : List Rect × Bool) : Type 0 where
  pub listed : IsListed bounds after.0 after.1
  pub held : Within region after.0
  pub kept : (c : Rect) → Within c before.0 → Within c after.0

add_region-new :
    (bounds region : Rect) (rs : List Rect)
    → IsSized bounds
    → IsInside bounds region
    → IsListed bounds rs false
    → extend_last region rs ≡ none
    → Added bounds region (rs, false) (add_region (rs, false) region)
unfolding add_region
add_region-new bounds region rs s i l h = elim (Bool-cases (leb max_regions (length rs))) [
  | inl full ↦
      rw (h, full, add_region)
        record {
          listed = record {
            inside = (envelope-IsInside bounds region rs s i l.inside, tt);
            few = omega arith;
            one = λ _. refl;
          };
          held = inl (IsInside-envelope bounds region rs s i l.inside);
          kept = λ c w. inl (Within-envelope bounds region c rs s i l.inside w);
        }
  | inr space ↦
      rw (h, space, add_region)
        record {
          listed = record {
            inside = AllInside-append bounds region rs i l.inside;
            few = ground (arith, length-append rs (region ∷ []));
            one = λ e. cc;
          };
          held = append-Within region rs;
          kept = λ c w. Within-append c region rs w;
        }
]

add_region-grown :
    (bounds region : Rect) (rs grown : List Rect)
    → IsInside bounds region
    → IsListed bounds rs false
    → extend_last region rs ≡ some grown
    → Added bounds region (rs, false) (add_region (rs, false) region)
unfolding add_region
add_region-grown bounds region rs grown i l h =
    let e = extend_last-Extends region rs grown h in
    rw (h, add_region)
      record {
        listed = record {
          inside = Extends-AllInside bounds region i e l.inside;
          few = omega (arith, length-Extends region e, l.few);
          one = λ e. cc;
        };
        held = Extends-Within region e;
        kept = λ c w. Within-Extends region c e w;
      }

-- A region within the bounds that is added to such a list lies within one of its regions, each rectangle
-- that lay within one still does, and the list stays within its limits.
pub add_region-Added :
    (bounds region : Rect) (before : List Rect × Bool)
    → IsSized bounds
    → IsInside bounds region
    → IsListed bounds before.0 before.1
    → Added bounds region before (add_region before region)
unfolding add_region
add_region-Added bounds region (rs, false) s i l = elim (Option-cases (extend_last region rs)) [
  | inl none_ ↦ add_region-new bounds region rs s i l none_
  | inr (grown, h) ↦ add_region-grown bounds region rs grown i l h
]
add_region-Added bounds region ([], true) s i l = absurd (omega (arith, l.one refl))
add_region-Added bounds region (r ∷ rs, true) s i l = record {
  listed = record {
    inside = (union-IsInside bounds r region s l.inside.0 i, l.inside.1);
    few = l.few;
    one = l.one;
  };
  held = inl (IsInside-union bounds r region s l.inside.0 i).1;
  kept = λ c w. elim w [
    | inl j ↦
        inl
          (IsInside-trans (union r region) r c (IsInside-union bounds r region s l.inside.0 i).0 j)
    | inr v ↦ inr v
  ];
}
