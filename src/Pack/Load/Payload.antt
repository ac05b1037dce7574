-- ===== src/Pack/Load/Payload.antt =====
-- Which payloads fit the type that a pack declares (internal/pack/pack.go).
use cube_idp.Base.{
  ◌≡◌, refl, ◌≢◌, ◌↔◌, Bool, true, false, not, ◌||◌, Option, none, some, List, [], ◌∷◌, arith,
  Every, contains, contains-head, Result, if◌then◌else◌, Text, txt, ◌==◌, ==_iff, ok, err,
}
use cube_idp.Pack.Errors.{PackError, payload_mismatch}
use cube_idp.Pack.Source.{Node, stat_at}
use cube_idp.Pack.Load.{
  type_raw, type_helm, type_kustomize, chart_names, any_chart_content_of, any_chart_content,
  refuse_content, is_dir_node, is_file_node, dir_exists, any_file_exists, kustomization_markers,
  check_payload,
}

abbrev pub HasFile : Node → List Text → Type 0
HasFile fsys names =
    (name : Text) × (contains names name ≡ true) × (is_file_node (stat_at fsys name) ≡ true)

any_file_exists_iff :
    (fsys : Node) (names : List Text) → (any_file_exists fsys names ≡ true) ↔ HasFile fsys names
unfolding any_file_exists contains
any_file_exists_iff fsys [] = ((λ h. cc), (λ h. cc))
any_file_exists_iff fsys (name ∷ names) =
    by_test (is_file_node (stat_at fsys name)) refl (any_file_exists_iff fsys names)
  where
    by_test :
        (b : Bool)
        → is_file_node (stat_at fsys name) ≡ b
        → (any_file_exists fsys names ≡ true) ↔ HasFile fsys names
        → ((b || any_file_exists fsys names) ≡ true) ↔ HasFile fsys (name ∷ names)
    by_test true e later = ((λ h. (name, contains-head name names, e)), (λ h. refl))
    by_test false e later = (
      (λ h. let (found, c, f) = later.0 h in (found, ground (arith, c), f)),
      (λ h. later.1 (h.0, ground (arith, h.1, h.2, e, ==_iff name h.0), h.2)),
    )

-- Nothing stands under any of the names.
abbrev pub HasNone : Node → List Text → Type 0
HasNone fsys names = Every (λ name. stat_at fsys name ≡ none) names

any_chart_content_iff :
    (fsys : Node) (names : List Text)
    → (any_chart_content_of fsys names ≡ none) ↔ HasNone fsys names
unfolding any_chart_content_of
any_chart_content_iff fsys [] = ((λ h. tt), (λ h. refl))
any_chart_content_iff fsys (name ∷ names) =
    by_node (stat_at fsys name) (any_chart_content_iff fsys names)
  where
    by_node :
        (o : Option Node)
        → (any_chart_content_of fsys names ≡ none) ↔ HasNone fsys names
        → (elim o [ some info ↦ some name | none ↦ any_chart_content_of fsys names ] ≡ none)
          ↔ ((o ≡ none) × HasNone fsys names)
    by_node none later = ((λ h. (refl, later.0 h)), (λ h. later.1 h.1))
    by_node (some info) later = ((λ h. cc), (λ h. cc))

-- The marker of each type.
pub record Fits (fsys : Node) (t : Text) : Type 0 where
  pub raw : t ≡ type_raw → is_dir_node (stat_at fsys (txt "manifests")) ≡ true
  pub kustomize : t ≡ type_kustomize → HasFile fsys kustomization_markers
  pub helm : t ≡ type_helm → HasNone fsys chart_names

differ : (t x y : Text) → (x == y) ≡ false → (t == x) ≡ true → t ≢ y
differ t x y n m e = ground (arith, n, m, e, ==_iff t x, ==_iff x y)

unlike : (t x : Text) → (t == x) ≡ false → t ≢ x
unlike t x n e = ground (arith, n, e, ==_iff t x)

abbrev by_marker : Bool → PackError → Result PackError (Unit {0})
by_marker found e = if not found then err e else ok tt

by_marker_iff : (b : Bool) (e : PackError) → (by_marker b e ≡ ok tt) ↔ (b ≡ true)
by_marker_iff b e = ground arith

by_content_iff : (o : Option Text) → (refuse_content o ≡ ok tt) ↔ (o ≡ none)
by_content_iff none = ((λ h. refl), (λ h. refl))
by_content_iff (some name) = ((λ h. cc), (λ h. cc))

-- The payload check passes exactly if a raw pack has a manifests directory, a kustomize pack has a
-- file with a name of a kustomization, and a helm pack has nothing with a name that a chart is
-- recognized by, all at its root.
pub check_payload_iff : (fsys : Node) (t : Text) → (check_payload fsys t ≡ ok tt) ↔ Fits fsys t
unfolding check_payload any_chart_content dir_exists ◌==◌
check_payload_iff fsys t =
    by_type (t == type_raw) (t == type_kustomize) (t == type_helm) refl refl refl
  where
    by_type :
        (raw kustomize helm : Bool)
        → (t == type_raw) ≡ raw
        → (t == type_kustomize) ≡ kustomize
        → (t == type_helm) ≡ helm
        → ((if raw
              then by_marker
                  (is_dir_node (stat_at fsys (txt "manifests")))
                  (payload_mismatch t (txt "manifests/ directory"))
              else if kustomize
              then by_marker
                  (any_file_exists fsys kustomization_markers)
                  (payload_mismatch t (txt "kustomization.yaml"))
              else if helm
              then refuse_content (any_chart_content_of fsys chart_names)
              else ok tt)
            ≡ ok tt)
          ↔ Fits fsys t
    by_type true kustomize helm r k h = (
      (λ e. record {
        raw = λ _. (by_marker_iff _ _).0 e;
        kustomize = λ n. absurd (differ t type_raw type_kustomize refl r n);
        helm = λ n. absurd (differ t type_raw type_helm refl r n);
      }),
      (λ f. (by_marker_iff _ _).1 (f.raw ((==_iff t type_raw).0 r))),
    )
    by_type false true helm r k h = (
      (λ e. record {
        raw = λ n. absurd (unlike t type_raw r n);
        kustomize =
            λ _. (any_file_exists_iff fsys kustomization_markers).0 ((by_marker_iff _ _).0 e);
        helm = λ n. absurd (differ t type_kustomize type_helm refl k n);
      }),
      (λ f. (by_marker_iff _ _).1 (
          (any_file_exists_iff fsys kustomization_markers).1
            (f.kustomize ((==_iff t type_kustomize).0 k)))),
    )
    by_type false false true r k h = (
      (λ e. record {
        raw = λ n. absurd (unlike t type_raw r n);
        kustomize = λ n. absurd (unlike t type_kustomize k n);
        helm = λ _. (any_chart_content_iff fsys chart_names).0 ((by_content_iff _).0 e);
      }),
      (λ f.
          (by_content_iff _).1
            ((any_chart_content_iff fsys chart_names).1 (f.helm ((==_iff t type_helm).0 h)))),
    )
    by_type false false false r k h = (
      (λ e. record {
        raw = λ n. absurd (unlike t type_raw r n);
        kustomize = λ n. absurd (unlike t type_kustomize k n);
        helm = λ n. absurd (unlike t type_helm h n);
      }),
      (λ f. refl),
    )
