-- ===== src/RamFs/Paths.antt =====
-- Paths: splitting, joining, and the parent.
use felix.Prelude.{
  ◌≡◌, refl, sym, ap, ◌∙◌, false, List, [], ◌∷◌, ◌++◌, ◌==◌, if◌then◌else◌, if_intro, All,
  All-append, append-nil, append_assoc,
}
use mathlib.Core.Bool.{true≢false}
use felix.RamFs.{
  Text, is_nil, slash, split_from, split_path, join_path, parts_before, last_part, parent_and_name,
}

abbrev pub NoSlash : Text → Type 0
NoSlash p = All (λ c. (c == b'/') ≡ false) p

-- What stands between two slashes.
abbrev pub IsName : Text → Type 0
IsName p = (is_nil p ≡ false) × NoSlash p

split_word :
    (cur p rest : Text) → NoSlash p → split_from cur (p ++ rest) ≡ split_from (cur ++ p) rest
unfolding split_from
split_word cur [] rest h = ap (λ c. split_from c rest) (sym (append-nil cur))
split_word cur (c ∷ p) rest h = rw (h.0) (
    split_word (cur ++ c ∷ []) p rest h.1
    ∙ ap (λ t. split_from t rest) (append_assoc cur (c ∷ []) p))

split-join_from :
    (cur : Text) (ps : List Text)
    → IsName cur
    → All IsName ps
    → split_from cur (join_path ps) ≡ cur ∷ ps
unfolding split_from join_path
split-join_from cur [] h a = rw (h.0)
split-join_from cur (p ∷ ps) h a =
    rw (h.0)
      (ap (λ ns. cur ∷ ns) (split_word [] p (join_path ps) a.0.1 ∙ split-join_from p ps a.0 a.1))

-- Parts that are names are got back from their path.
pub split_path-join_path : (ps : List Text) → All IsName ps → split_path (join_path ps) ≡ ps
unfolding split_path
split_path-join_path [] a = unfold split_from join_path in refl
split_path-join_path (p ∷ ps) a =
    unfold split_from join_path in
    (split_word [] p (join_path ps) a.0.1 ∙ split-join_from p ps a.0 a.1)

end_part :
    (cur : Text) (ps : List Text)
    → NoSlash cur
    → All IsName ps
    → All IsName (if is_nil cur then ps else cur ∷ ps)
end_part [] ps h a = a
end_part (d ∷ ds) ps h a = ((refl, h), a)

split_from-names : (cur path : Text) → NoSlash cur → All IsName (split_from cur path)
unfolding split_from
split_from-names [] [] h = tt
split_from-names (c ∷ cur) [] h = ((refl, h), tt)
split_from-names cur (c ∷ path) h =
    if_intro (All IsName) (c == b'/') _ _
      (λ _. end_part cur (split_from [] path) h (split_from-names [] path tt))
      (λ k. split_from-names (cur ++ c ∷ []) path (All-append _ cur (c ∷ []) h (k, tt)))

pub split_path-names : (path : Text) → All IsName (split_path path)
unfolding split_path
split_path-names path = split_from-names [] path tt

parts_before-names : (ps : List Text) → All IsName ps → All IsName (parts_before ps)
unfolding parts_before
parts_before-names [] a = tt
parts_before-names (p ∷ []) a = tt
parts_before-names (p ∷ q ∷ ps) a = (a.0, parts_before-names (q ∷ ps) a.1)

-- The parent that `parent_and_name` writes as a path is read again as the parts before the last.
pub split_path-parent :
    (path : Text) → split_path (parent_and_name path).0 ≡ parts_before (split_path path)
unfolding parent_and_name
split_path-parent path =
    rejoin (parts_before (split_path path))
      (parts_before-names (split_path path) (split_path-names path))
  where
    rejoin :
        (ps : List Text)
        → All IsName ps
        → split_path (if is_nil ps then slash else join_path ps) ≡ ps
    rejoin [] a = unfold split_path split_from in refl
    rejoin (p ∷ ps) a = split_path-join_path (p ∷ ps) a

pub parts_before-last_part :
    (ps : List Text) → is_nil ps ≡ false → parts_before ps ++ last_part ps ∷ [] ≡ ps
unfolding parts_before last_part
parts_before-last_part [] h = absurd (true≢false h)
parts_before-last_part (p ∷ []) h = refl
parts_before-last_part (p ∷ q ∷ ps) h = ap (λ t. p ∷ t) (parts_before-last_part (q ∷ ps) refl)
