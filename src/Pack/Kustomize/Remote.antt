-- ===== src/Pack/Kustomize/Remote.antt =====
-- Which references count as remote (internal/pack/kustomize.go), told by their parts.
use cube_idp.Base.{
  ◌≡◌, refl, ap, ◌∙◌, ◌↔◌, ◌⊎◌, inl, inr, Bool, true, false, Option, none, some, [], false≢true,
  some_is, path_ext, cut_at, Begins, Holds, has_prefix_iff, has_text_iff, FirstAt, cut_at_iff,
  trim_space, if◌then◌else◌, and_iff, or_iff, not_iff, Text, txt, ==_iff,
}
use cube_idp.Pack.Kustomize.{is_yaml_name, has_host, is_remote_trimmed, is_remote_ref}

-- An explicit local path.
abbrev pub IsPath : Text → Type 0
IsPath ref = (Begins (txt "./") ref ⊎ Begins (txt "../") ref) ⊎ Begins (txt "/") ref

abbrev pub IsYamlName : Text → Type 0
IsYamlName segment =
    ((path_ext segment ≡ txt ".yaml") ⊎ (path_ext segment ≡ txt ".yml"))
    ⊎ (path_ext segment ≡ txt ".json")

-- The first segment of several, with a dot in it, is no manifest file.
abbrev pub HasHost : Text → Type 0
HasHost ref =
    (first : Text) × (rest : Text) × FirstAt b'/' ref (first, rest)
    × (((rest ≡ [] → ⊥) × Holds (txt ".") first) × (IsYamlName first → ⊥))

abbrev pub IsGetter : Text → Type 0
IsGetter ref = (Begins (txt "git@") ref ⊎ Begins (txt "git::") ref) ⊎ Begins (txt "oci::") ref

-- A trimmed reference that kustomize would fetch, or might: a URL, a getter, a query, a name of
-- git; or no local path, and a double slash or a host.
abbrev pub IsFetched : Text → Type 0
IsFetched ref =
    (ref ≡ [] → ⊥)
    × (Holds (txt "://") ref
        ⊎ (IsGetter ref
            ⊎ (Holds (txt "?") ref
                ⊎ (Holds (txt ".git") ref
                    ⊎ ((IsPath ref → ⊥) × (Holds (txt "//") ref ⊎ HasHost ref))))))

abbrev pub IsRemote : Text → Type 0
IsRemote ref = IsFetched (trim_space ref)

either_iff :
    {a b : Bool} {P Q : Type 0}
    → (a ≡ true) ↔ P
    → (b ≡ true) ↔ Q
    → ((if a then true else b) ≡ true) ↔ (P ⊎ Q)
either_iff {a = true} p q = ((λ h. inl (p.0 refl)), (λ h. refl))
either_iff {a = false} p q =
    ((λ h. inr (q.0 h)), (λ h. elim h [ inl x ↦ absurd (false≢true (p.1 x)) | inr y ↦ q.1 y ]))

unless_iff :
    {a b : Bool} {P Q : Type 0}
    → (a ≡ true) ↔ P
    → (b ≡ true) ↔ Q
    → ((if a then false else b) ≡ true) ↔ ((P → ⊥) × Q)
unless_iff {a = true} p q = ((λ h. cc), (λ h. absurd (h.0 (p.0 refl))))
unless_iff {a = false} p q = ((λ h. ((λ x. false≢true (p.1 x)), q.0 h)), (λ h. q.1 h.1))

is_yaml_name_iff : (segment : Text) → (is_yaml_name segment ≡ true) ↔ IsYamlName segment
unfolding is_yaml_name
is_yaml_name_iff segment =
    or_iff
      (or_iff (==_iff (path_ext segment) (txt ".yaml")) (==_iff (path_ext segment) (txt ".yml")))
      (==_iff (path_ext segment) (txt ".json"))

has_host-some :
    (first rest : Text)
    → (has_host (some (first, rest)) ≡ true)
      ↔ (((rest ≡ [] → ⊥) × Holds (txt ".") first) × (IsYamlName first → ⊥))
unfolding has_host
has_host-some first rest =
    and_iff (and_iff (not_iff (==_iff rest [])) (has_text_iff (txt ".") first))
      (not_iff (is_yaml_name_iff first))

has_host_iff : (ref : Text) → (has_host (cut_at b'/' ref) ≡ true) ↔ HasHost ref
has_host_iff ref = by_cut (cut_at b'/' ref) (λ first rest. cut_at_iff b'/' ref first rest)
  where
    by_cut :
        (o : Option (Text × Text))
        → ((first rest : Text) → (o ≡ some (first, rest)) ↔ FirstAt b'/' ref (first, rest))
        → (has_host o ≡ true) ↔ HasHost ref
    by_cut none cut = (
      (λ h. unfold has_host in cc),
      (λ h. let (first, rest, found, parts) = h in let e = (cut first rest).1 found in cc),
    )
    by_cut (some (first, rest)) cut = (
      (λ h. (first, rest, (cut first rest).0 refl, (has_host-some first rest).0 h)),
      (λ h.
          let (first', rest', found, parts) = h in
          let e : (first, rest) ≡ (first', rest') = some_is ((cut first' rest').1 found) in
          ap (λ x. has_host (some x)) e ∙ (has_host-some first' rest').1 parts),
    )

is_remote_trimmed_iff : (ref : Text) → (is_remote_trimmed ref ≡ true) ↔ IsFetched ref
unfolding is_remote_trimmed
is_remote_trimmed_iff ref =
    let begins = λ (p : Text). has_prefix_iff p ref in
    let holds = λ (p : Text). has_text_iff p ref in
    unless_iff (==_iff ref []) (
      either_iff (holds (txt "://")) (
        either_iff
          (or_iff (or_iff (begins (txt "git@")) (begins (txt "git::"))) (begins (txt "oci::")))
          (either_iff (holds (txt "?")) (
            either_iff (holds (txt ".git")) (
              unless_iff
                (or_iff (or_iff (begins (txt "./")) (begins (txt "../"))) (begins (txt "/")))
                (either_iff (holds (txt "//")) (has_host_iff ref)))))))

pub is_remote_ref_iff : (ref : Text) → (is_remote_ref ref ≡ true) ↔ IsRemote ref
unfolding is_remote_ref
is_remote_ref_iff ref = is_remote_trimmed_iff (trim_space ref)
