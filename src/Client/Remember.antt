-- ===== src/Client/Remember.antt =====
-- Selecting another device and coming back.
use Prim.Native.String.{String}
use pose_bridge.Prelude.{
  ◌≡◌, refl, ap, ◌∙◌, arith, inl, inr, Bool, true, false, not, ◌||◌, Bool-cases, some, List, [],
  ◌∷◌, ◌++◌, filter, unwrap_or,
}
use pose_bridge.Prelude.Texts.{same_text, same_text_iff}
use pose_bridge.Client.{
  Transport, same_transport, same_transport_iff, Device, Preferences, is_named, is_empty, find,
  remember, select, new_device,
}

module _ (p q : Device → Bool) where
  -- What the filter removes is not found.
  find_filtered :
      (ds es : List Device)
      → ((d : Device) → p d ≡ true → q d ≡ false)
      → find p (filter q ds ++ es) ≡ find p es
  find_filtered [] es h = refl
  find_filtered (d ∷ ds) es h = elim (Bool-cases (p d)) [
    | inl e ↦ rw (h d e) (find_filtered ds es h)
    | inr e ↦ elim (Bool-cases (q d)) [
      | inl k ↦ rw (k, e) (find_filtered ds es h)
      | inr k ↦ rw k (find_filtered ds es h)
    ]
  ]

  -- What the filter keeps is found as before.
  find_kept :
      (ds : List Device)
      → ((d : Device) → p d ≡ true → q d ≡ true)
      → find p (filter q ds) ≡ find p ds
  find_kept [] h = refl
  find_kept (d ∷ ds) h = elim (Bool-cases (p d)) [
    | inl e ↦ rw (h d e, e) refl
    | inr e ↦ elim (Bool-cases (q d)) [
      | inl k ↦ rw (k, e) (find_kept ds h)
      | inr k ↦ rw (k, e) (find_kept ds h)
    ]
  ]

find_append :
    (p : Device → Bool) (ds es : List Device) (d : Device)
    → find p ds ≡ some d
    → find p (ds ++ es) ≡ some d
find_append p [] es d h = cc
find_append p (x ∷ ds) es d h = ground (arith, find_append p ds es d)

-- What is found passes the test, and so does what stands in for it.
unwrap_or-find :
    (p : Device → Bool) (ds : List Device) (d : Device)
    → p d ≡ true
    → p (unwrap_or (find p ds) d) ≡ true
unwrap_or-find p [] d h = h
unwrap_or-find p (x ∷ ds) d h = elim (Bool-cases (p x)) [
  | inl e ↦ rw (e, e) refl
  | inr e ↦ rw e (unwrap_or-find p ds d h)
]

same_transport_refl : (t : Transport) → same_transport t t ≡ true
same_transport_refl t = (same_transport_iff t t).1 refl

same_text_refl : (s : String) → same_text s s ≡ true
same_text_refl s = (same_text_iff s s).1 refl

is_named_own : (d : Device) → is_named d.transport d.id d ≡ true
is_named_own d = ground (arith, same_transport_refl d.transport, same_text_refl d.id)

-- Devices of one name have the same names.
is_named_trans :
    (t : Transport) (id : String) (d e : Device)
    → is_named d.transport d.id e ≡ true
    → is_named t id e ≡ true
    → is_named t id d ≡ true
is_named_trans t id d e h k = ground (
  arith,
  same_transport_iff e.transport d.transport,
  same_transport_iff e.transport t,
  same_transport_iff d.transport t,
  same_text_iff e.id d.id,
  same_text_iff e.id id,
  same_text_iff d.id id,
)

named_alike :
    (t u : Transport) (id jd name : String) (x : Device)
    → is_named t id x ≡ true
    → is_named u jd x ≡ true
    → is_named t id (new_device u jd name) ≡ true
named_alike t u id jd name x h k = ground (
  arith,
  same_transport_iff x.transport t,
  same_transport_iff x.transport u,
  same_transport_iff u t,
  same_text_iff x.id id,
  same_text_iff x.id jd,
  same_text_iff jd id,
)

clash : {b : Bool} → b ≡ true → b ≡ false → ⊥
clash h k = cc

-- The test that `remember` keeps other devices by.
abbrev is_other : Device → Device → Bool
is_other e d = not (same_transport d.transport e.transport) || not (same_text d.id e.id)

remember-find :
    (p : Preferences)
    → is_empty p.device.id ≡ false
    → find (is_named p.device.transport p.device.id) (remember p).remembered ≡ some p.device
unfolding remember
remember-find p h = rw h (
    find_filtered (is_named p.device.transport p.device.id) (is_other p.device) p.remembered
      (p.device ∷ []) (λ d k. ground arith)
    ∙ rw (is_named_own p.device) refl)

-- A remembered device is found after another one is remembered.
remember_kept :
    (p : Preferences) (d : Device)
    → is_named d.transport d.id p.device ≡ false
    → find (is_named d.transport d.id) p.remembered ≡ some d
    → find (is_named d.transport d.id) (remember p).remembered ≡ some d
unfolding remember
remember_kept p d h k = elim (Bool-cases (is_empty p.device.id)) [
  | inl e ↦ rw e k
  | inr e ↦ rw e (
      find_append (is_named d.transport d.id) _ (p.device ∷ []) d
        (find_kept (is_named d.transport d.id) (is_other p.device) p.remembered other ∙ k))
]
  where
    other : (x : Device) → is_named d.transport d.id x ≡ true → is_other p.device x ≡ true
    other x n = elim (Bool-cases (is_named p.device.transport p.device.id x)) [
      | inl e ↦ absurd (clash (is_named_trans d.transport d.id p.device x e n) h)
      | inr e ↦ ground arith
    ]

-- A device with an identifier that is left for one of another name comes back as it was.
pub select_back :
    (p : Preferences) (t : Transport) (id name again : String)
    → is_empty p.device.id ≡ false
    → is_named p.device.transport p.device.id (new_device t id name) ≡ false
    → (select (select p t id name) p.device.transport p.device.id again).device ≡ p.device
unfolding select
select_back p t id name again h k =
    ap (λ o. unwrap_or o (new_device p.device.transport p.device.id again))
      (remember_kept (select p t id name) p.device different (remember-find p h))
  where
    chosen : is_named t id (select p t id name).device ≡ true
    chosen =
        unwrap_or-find (is_named t id) (remember p).remembered (new_device t id name)
          (is_named_own (new_device t id name))

    different : is_named p.device.transport p.device.id (select p t id name).device ≡ false
    different =
        elim (Bool-cases (is_named p.device.transport p.device.id (select p t id name).device)) [
          | inl e ↦ absurd (
              clash
                (named_alike p.device.transport t p.device.id id name (select p t id name).device e
                  chosen)
                k)
          | inr e ↦ e
        ]
