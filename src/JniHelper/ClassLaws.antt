-- ===== src/JniHelper/ClassLaws.antt =====
-- `JavaClassCache::get` and the `static` locals in a healthy JVM.
use mathlib.Core.Path.{subst}
use my_stest.Base.{
  ◌≡◌, refl, Bool, true, false, Option, none, some, [], arith, Text, text_eq, text_eq_iff, lookup,
  lookup-insert, inl, inr, Option-cases, Bool-cases, if◌then◌else◌, insert, Dict,
}
use my_stest.World.Calls.{Jclass, global_ref, MethodId, Env, Trace}
use my_stest.World.State.{State, Site, site_eq, ok}
use my_stest.World.Jni.{find_class, new_global_ref, get_method_id}
use my_stest.JavaClassCache
use my_stest.JavaClassCache.{static_class, static_method}
use my_stest.JniHelper.Objects.{init_name}
use my_stest.JniHelper.Ready.{
  site_name, IsHealthy, Cached, HeldClass, HeldMethod, IsReady, essential, Does, Does-ok, Does-pure,
  Does-quiet,
}

-- An insertion of a fitting value keeps every entry fitting.
insert-Cached :
    (k : Text) (v : Option Jclass) (m : Dict (Option Jclass))
    → Cached k (some v)
    → ((n : Text) → Cached n (lookup n m))
    → (n : Text) → Cached n (lookup n (insert k v m))
insert-Cached k v m h all n = rw lookup-insert (elim (Bool-cases (text_eq k n)) [
  | inl e ↦ rw e (subst (λ x. Cached x (some v)) ((text_eq_iff k n).0 e) h)
  | inr e ↦ rw e (all n)
])

-- A lookup that ends with another cache.
done :
    {s : State} {t : Trace} {m : Dict (Option Jclass)} {a : Option Jclass}
    → IsReady s
    → ((n : Text) → Cached n (lookup n m))
    → essential t ≡ essential s.trace
    → Does s (ok a (record s { trace = t; class_cache = m })) a []
done {a} h all e =
    Does-ok a (record { cached = all; classes = h.classes; methods = h.methods }) e
      (record { caches = refl; clients = refl; credential_cache = refl })

site_eq→eq : (i j : Site) → site_eq i j ≡ true → i ≡ j
site_eq→eq i j h = ground arith

set-HeldClass :
    (i j : Site) (old : Option (Option Jclass))
    → HeldClass j old
    → HeldClass j (if site_eq j i then some (some (global_ref (site_name i))) else old)
set-HeldClass i j old h = elim (Bool-cases (site_eq j i)) [
  | inl e ↦ rw e (rw (site_eq→eq j i e))
  | inr e ↦ rw e h
]

set-HeldMethod :
    (b : Bool) (m : MethodId) (old : Option (Option MethodId))
    → HeldMethod old
    → HeldMethod (if b then some (some m) else old)
set-HeldMethod true m old h = tt
set-HeldMethod false m old h = h

module _ {env : Env} (healthy : IsHealthy env) where
  -- In a healthy JVM, from a state whose class references are right, `JavaClassCache::get` of one of
  -- the five classes gives the global reference to it, whether it is cached, cached as NULL or not
  -- there, with no event but lookups, and keeps the class references right.
  pub get-Does :
      (i : Site) (s : State)
      → IsReady s
      → Does s (JavaClassCache.get (site_name i) env s) (some (global_ref (site_name i))) []
  unfolding JavaClassCache.get find_class new_global_ref
  get-Does i s h = elim (Option-cases (lookup (site_name i) s.class_cache)) [
    | inl e ↦
        rw (e, healthy.finds)
          (rw healthy.globalises
            (done h (insert-Cached _ _ _ refl (insert-Cached _ _ _ tt h.cached)) refl))
    | inr (none, e) ↦
        rw (e, healthy.finds)
          (rw healthy.globalises (done h (insert-Cached _ _ _ refl h.cached) refl))
    | inr (some c, e) ↦ rw e (
        let fits : c ≡ global_ref (site_name i) = rw e at (h.cached (site_name i)) in
        rw fits (Does-pure _ h))
  ]

  -- A `static` class of one of the five functions is there after its first use.
  pub static_class-Does :
      (i : Site) (s : State)
      → IsReady s
      → Does s
          (static_class i (JavaClassCache.get (site_name i)) env s)
          (some (global_ref (site_name i)))
          []
  unfolding static_class
  static_class-Does i s h = elim (Option-cases (s.class_statics i)) [
    | inl e ↦ rw e (
        Does-quiet _ (get-Does i s h) λ t ready.
          Does-ok _
            (record {
              cached = ready.cached;
              classes = λ j. set-HeldClass i j _ (ready.classes j);
              methods = ready.methods;
            })
            refl (record { caches = refl; clients = refl; credential_cache = refl }))
    | inr (none, e) ↦ absurd (rw e at (h.classes i))
    | inr (some c, e) ↦
        rw e (
          let fits : c ≡ global_ref (site_name i) = rw e at (h.classes i) in
          rw fits (Does-pure _ h))
  ]

  -- So is a `static` constructor.
  pub static_method-Does :
      (i : Site) (signature : Text) (s : State)
      → IsReady s
      → (m : MethodId) × Does s
          (static_method i
            (get_method_id (some (global_ref (site_name i))) init_name signature)
            env
            s)
          (some m)
          []
  unfolding static_method get_method_id
  static_method-Does i signature s h = elim (Option-cases (s.method_statics i)) [
    | inl e ↦ (
      record { owner = global_ref (site_name i); name = init_name; signature = signature },
      rw (e, healthy.has_constructor)
          (Does-ok _
            (record {
              cached = h.cached;
              classes = h.classes;
              methods = λ j. set-HeldMethod (site_eq j i) _ _ (h.methods j);
            })
            refl (record { caches = refl; clients = refl; credential_cache = refl })),
    )
    | inr (none, e) ↦ absurd (rw e at (h.methods i))
    | inr (some m, e) ↦ (m, rw e (Does-pure _ h))
  ]
