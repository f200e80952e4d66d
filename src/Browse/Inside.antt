-- ===== src/Browse/Inside.antt =====
-- A path that passes the check stays below the directory that it is joined to.
use portainer_agent.Base.{
  ◌≡◌, refl, sym, ◌∙◌, Bool, true, false, ◌||◌, List, [], ◌∷◌, ◌++◌, append_assoc, Str, codes,
  str_eq, All, if◌then◌else◌,
}
use portainer_agent.Browse.{dots, is_valid_path, parent, clean_onto, join_onto}
use portainer_agent.Browse.Elements.{IsPlain, is_valid_path-All}

-- A path that a directory leads to, without leaving it.
abbrev pub Below : List Str → List Str → Type 0
Below dir path = (more : List Str) × (path ≡ more ++ dir)

clean_onto-Below : (dir es : List Str) → All IsPlain es → Below dir (clean_onto dir es)
unfolding clean_onto
clean_onto-Below dir [] h = ([], refl)
clean_onto-Below dir (e ∷ es) h =
    by_test (str_eq e [] || str_eq e (codes ".")) (str_eq e dots) h.0
      (λ d. clean_onto-Below d es h.1)
  where
    by_test :
        (skipped up : Bool)
        → up ≡ false
        → ((d : List Str) → Below d (clean_onto d es))
        → Below dir (clean_onto (if skipped then dir else if up then parent dir else e ∷ dir) es)
    by_test true up k ih = ih dir
    by_test false true k ih = cc (k)
    by_test false false k ih =
        let (more, path) = ih (e ∷ dir) in
        (more ++ e ∷ [], path ∙ sym (append_assoc more (e ∷ []) dir))

pub join_onto-Below :
    (dir : List Str) (part : Str) → is_valid_path part ≡ true → Below dir (join_onto dir part)
unfolding join_onto
join_onto-Below dir part h = clean_onto-Below dir _ (is_valid_path-All part h)
