-- ===== src/Ingress/Route/Segments.antt =====
-- pathSegments and segmentPrefixMatch (route.go) against paths as lists of segments.
use darwin_net.Prelude.{
  ◌≡◌, ◌↔◌, ◌≢◌, refl, ap, ◌∙◌, arith, ℕ, true, List, [], ◌∷◌, ◌++◌, ◌==◌, nat_eq, list_eq,
  list_beq_iff, length-append, filter_by-append, Bool-cases, inl, inr,
}
use darwin_net.Prelude.Texts.{Text}
use darwin_net.Ingress.Route.{split, cons_head, path_segments, segments_equal, segment_prefix_match}

segments_equal-append : (rs ps : List Text) → segments_equal rs (rs ++ ps) ≡ true
unfolding segments_equal
segments_equal-append [] ps = refl
segments_equal-append (r ∷ rs) ps = ground (arith, list_beq_iff r r, segments_equal-append rs ps)

segments_equal-prefix :
    (rs ps : List Text) → segments_equal rs ps ≡ true → (rest : List Text) × (ps ≡ rs ++ rest)
unfolding segments_equal
segments_equal-prefix [] ps h = (ps, refl)
segments_equal-prefix (r ∷ rs) [] h = cc
segments_equal-prefix (r ∷ rs) (p ∷ ps) h = elim (Bool-cases (r == p)) [
  | inr differ ↦ ground arith
  | inl same ↦
      let (rest, e) = segments_equal-prefix rs ps (ground arith) in
      (rest, ground (arith, list_beq_iff r p))
]

-- A Prefix rule matches a request path exactly when the rule's segments are leading segments of it.
pub segment_prefix_match_iff :
    (rule req : Text)
    → (segment_prefix_match rule req ≡ true)
      ↔ ((rest : List Text) × (path_segments req ≡ path_segments rule ++ rest))
unfolding segment_prefix_match
segment_prefix_match_iff rule req = (there, back)
  where
    there :
        segment_prefix_match rule req ≡ true
        → (rest : List Text) × (path_segments req ≡ path_segments rule ++ rest)
    there h = segments_equal-prefix (path_segments rule) (path_segments req) (ground arith)

    back :
        (rest : List Text) × (path_segments req ≡ path_segments rule ++ rest)
        → segment_prefix_match rule req ≡ true
    back (rest, e) = rw e (
        ground (
          arith,
          segments_equal-append (path_segments rule) rest,
          length-append (path_segments rule) rest,
        ))

split-ne_nil : (p : Text) → split p ≢ []
unfolding split
split-ne_nil [] = cc
split-ne_nil (c ∷ p) = elim (Bool-cases (c == b'/')) [
  | inl slash ↦ rw slash (cc)
  | inr other ↦ rw other (cons_head-ne_nil (split p))
]
  where
    cons_head-ne_nil : (segs : List Text) → cons_head c segs ≢ []
    cons_head-ne_nil [] = cc
    cons_head-ne_nil (s ∷ segs) = cc

cons_head-append :
    (c : ℕ) (xs ys : List Text) → xs ≢ [] → cons_head c (xs ++ ys) ≡ cons_head c xs ++ ys
cons_head-append c [] ys h = absurd (h refl)
cons_head-append c (x ∷ xs) ys h = refl

split-slash : (p q : Text) → split (p ++ b'/' ∷ q) ≡ split p ++ split q
unfolding split
split-slash [] q = refl
split-slash (c ∷ p) q = elim (Bool-cases (c == b'/')) [
  | inl slash ↦ rw slash (ap (λ (s : List Text). [] ∷ s) (split-slash p q))
  | inr other ↦
      rw other (
        ap (cons_head c) (split-slash p q)
        ∙ cons_head-append c (split p) (split q) (split-ne_nil p))
]

-- The segments of two paths joined by a slash are the segments of the one and then of the other. So
-- a slash at the end, or a doubled one, adds no segment.
pub path_segments-slash :
    (p q : Text) → path_segments (p ++ b'/' ∷ q) ≡ path_segments p ++ path_segments q
unfolding path_segments
path_segments-slash p q = rw (split-slash p q) (filter_by-append _ (split p) (split q))
