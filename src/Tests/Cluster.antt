-- ===== src/Tests/Cluster.antt =====
-- A cluster with room for one object, whose API is lawful.
use cloud_provider_cherry.Prelude.{
  String, ◌≡◌, refl, Bool, true, false, Option, none, some, List, [], ◌∷◌, ◌==◌, string_eq,
  if◌then◌else◌, eq_iff, sym, ap, Labels, Bool-cases, inl, inr, ◌∙◌,
}
use cloud_provider_cherry.Effect.{message, Result, ok, err, Action, ok_inj, ok-ne-err}
use cloud_provider_cherry.Metallb.Api.{Object, Kind, IsLawful, named_object, HasDistinctNames}

module _ {A : Type 0} where
  abbrev pub listed : Option (Object A) → List (Object A)
  listed none = []
  listed (some p) = p ∷ []

  abbrev pub shown : Option (Object A) → String → Option (Object A)
  shown w n = named_object n (listed w)

  abbrev pub refused : {B : Type 0} → Option (Object A) → Result B × Option (Object A)
  refused w = (err (message "refused"), w)

  abbrev pub created : Object A → Action (Option (Object A)) Unit
  created o none = (ok tt, some o)
  created o (some p) = refused (some p)

  abbrev pub patched : Object A → Object A → Action (Option (Object A)) Unit
  patched o o' none = refused none
  patched o o' (some p) = if p.name == o.name then (ok tt, some o') else refused (some p)

  abbrev pub deleted : Object A → Action (Option (Object A)) Unit
  deleted o none = refused none
  deleted o (some p) = if p.name == o.name then (ok tt, none) else refused (some p)

  abbrev pub one_object : Kind (Option (Object A)) A
  one_object = record {
    list = λ matching namespace w. ok (listed w);
    create = created;
    patch = patched;
    delete = deleted;
  }

  distinct : (w : Option (Object A)) → HasDistinctNames (listed w)
  distinct none = tt
  distinct (some p) = (refl, tt)

  pub list_names :
      (w : Option (Object A)) (os : List (Object A)) → ok (listed w) ≡ ok os → HasDistinctNames os
  list_names w os h = rw (ok_inj h) at (distinct w)

  world :
      {w w' : Option (Object A)}
      → ◌≡◌ {A = Result (Unit {0}) × Option (Object A)} (ok tt, w) (ok tt, w')
      → w' ≡ w
  world h = sym (ap (λ (r : Result Unit × Option (Object A)). r.1) h)

  fails :
      {B : Type 0} {w w' : Option (Object A)}
      → ◌≡◌ {A = Result (Unit {0}) × Option (Object A)} (refused w) (ok tt, w')
      → B
  fails h = ok-ne-err (ap (λ (r : Result Unit × Option (Object A)). r.0) h)

  pub find-create :
      (o : Object A) (w w' : Option (Object A))
      → created o w ≡ (ok tt, w')
      → (n : String) → shown w' n ≡ (if o.name == n then some o else shown w n)
  find-create o none w' h n = ap (λ w. shown w n) (world h)
  find-create o (some p) w' h n = fails h

  view_patch :
      (a b c n : String) (x y : Object A)
      → a ≡ b
      → c ≡ b
      → (if a == n then some x else none)
        ≡ (if b == n then some x else (if c == n then some y else none))
  view_patch a b c n x y e f = rw (e, f) (twice (b == n))
    where
      twice :
          (t : Bool)
          → (if t then some x else none) ≡ (if t then some x else (if t then some y else none))
      twice true = refl
      twice false = refl

  view_delete :
      (b c n : String) (y : Object A)
      → c ≡ b
      → none ≡ (if b == n then none else (if c == n then some y else none))
  view_delete b c n y f = rw f (gone (b == n))
    where
      gone : (t : Bool) → none ≡ (if t then none else (if t then some y else none))
      gone true = refl
      gone false = refl

  pub find-patch :
      (o o' : Object A) (w w' : Option (Object A))
      → o'.name ≡ o.name
      → shown w o.name ≡ some o
      → patched o o' w ≡ (ok tt, w')
      → (n : String) → shown w' n ≡ (if o.name == n then some o' else shown w n)
  find-patch o o' none w' same here h n = fails h
  find-patch o o' (some p) w' same here h n = elim (Bool-cases (p.name == o.name)) [
    | inl e ↦
        ap (λ w. shown w n) (world (rw e at h))
        ∙ view_patch o'.name o.name p.name n o' p same ((eq_iff p.name o.name).0 e)
    | inr e ↦ fails (rw e at h)
  ]

  pub find-delete :
      (o : Object A) (w w' : Option (Object A))
      → deleted o w ≡ (ok tt, w')
      → (n : String) → shown w' n ≡ (if o.name == n then none else shown w n)
  find-delete o none w' h n = fails h
  find-delete o (some p) w' h n = elim (Bool-cases (p.name == o.name)) [
    | inl e ↦
        ap (λ w. shown w n) (world (rw e at h))
        ∙ view_delete o.name p.name n p ((eq_iff p.name o.name).0 e)
    | inr e ↦ fails (rw e at h)
  ]

  pub one_object-IsLawful :
      (matching : Labels) (namespace : String) → IsLawful one_object matching namespace shown
  one_object-IsLawful matching namespace = record {
    list_names = list_names;
    find-list = λ w os h n. ap (named_object n) (ok_inj h);
    find-create = λ o w w' own h. find-create o w w' h;
    find-patch =
        λ o o' w w' same namespace_kept labels_kept here h. find-patch o o' w w' same here h;
    find-delete = find-delete;
  }

abbrev on_left : {W V : Type 0} → Result (Unit {0}) × (W × V) → Result (Unit {0}) × W
on_left (r, (w, v)) = (r, w)

abbrev on_right : {W V : Type 0} → Result (Unit {0}) × (W × V) → Result (Unit {0}) × V
on_right (r, (w, v)) = (r, v)

-- Two clusters side by side, each with calls of its own.
module _ {W V A : Type 0} where
  abbrev pub left : Kind W A → Kind (W × V) A
  left k = record {
    list = λ matching namespace w. k.list matching namespace w.0;
    create = λ o w. let (r, w') = k.create o w.0 in (r, (w', w.1));
    patch = λ o o' w. let (r, w') = k.patch o o' w.0 in (r, (w', w.1));
    delete = λ o w. let (r, w') = k.delete o w.0 in (r, (w', w.1));
  }

  abbrev pub right : Kind V A → Kind (W × V) A
  right k = record {
    list = λ matching namespace w. k.list matching namespace w.1;
    create = λ o w. let (r, w') = k.create o w.1 in (r, (w.0, w'));
    patch = λ o o' w. let (r, w') = k.patch o o' w.1 in (r, (w.0, w'));
    delete = λ o w. let (r, w') = k.delete o w.1 in (r, (w.0, w'));
  }

  pub left-IsLawful :
      (k : Kind W A) (matching : Labels) (namespace : String)
      (find : W → String → Option (Object A))
      → IsLawful k matching namespace find
      → IsLawful (left k) matching namespace (λ w n. find w.0 n)
  left-IsLawful k matching namespace find law = record {
    list_names = λ w os h. law.list_names w.0 os h;
    find-list = λ w os h n. law.find-list w.0 os h n;
    find-create = λ o w w' own h n. law.find-create o w.0 w'.0 own (ap on_left h) n;
    find-patch = λ o o' w w' same ns ls here h n.
        law.find-patch o o' w.0 w'.0 same ns ls here (ap on_left h) n;
    find-delete = λ o w w' h n. law.find-delete o w.0 w'.0 (ap on_left h) n;
  }

  pub right-IsLawful :
      (k : Kind V A) (matching : Labels) (namespace : String)
      (find : V → String → Option (Object A))
      → IsLawful k matching namespace find
      → IsLawful (right k) matching namespace (λ w n. find w.1 n)
  right-IsLawful k matching namespace find law = record {
    list_names = λ w os h. law.list_names w.1 os h;
    find-list = λ w os h n. law.find-list w.1 os h n;
    find-create = λ o w w' own h n. law.find-create o w.1 w'.1 own (ap on_right h) n;
    find-patch = λ o o' w w' same ns ls here h n.
        law.find-patch o o' w.1 w'.1 same ns ls here (ap on_right h) n;
    find-delete = λ o w w' h n. law.find-delete o w.1 w'.1 (ap on_right h) n;
  }
