-- ===== src/Facade/Secret/Delivery.antt =====
-- What a caller gets from a conversion that succeeds, and what it does to the rest of the heap.
use symbol_nem_wallet_core.Prelude.{
  ℕ, String, ◌≤◌, ◌<◌, ◌≡◌, refl, sym, ◌∙◌, Option, List, [], ◌∷◌, arith, subst, In, true, inl, inr,
}
use symbol_nem_wallet_core.Js.Value.{Value, bytes}
use symbol_nem_wallet_core.Js.Outcome.{Outcome, returned, thrown, ◌>>=◌}
use symbol_nem_wallet_core.Js.Storage.{live, Heap}
use symbol_nem_wallet_core.Facade.Access.{property, required_object}
use symbol_nem_wallet_core.Facade.Bytes.{has_length, output_bytes, clear_all}
use symbol_nem_wallet_core.Facade.Bytes.Clearing.{clear_all-storage_ne}
use symbol_nem_wallet_core.Facade.Bytes.Copying.{
  IsCopy, output_bytes-IsCopy, KeepsOld, KeepsOld-refl, KeepsOld-trans, output_bytes-KeepsOld,
}
use symbol_nem_wallet_core.Facade.Output.{Warning}
use symbol_nem_wallet_core.Facade.Results.{ReadResult}
use symbol_nem_wallet_core.Facade.Secret.{
  SecretField, SecretCopy, Copying, push_source, read_sources, read_secret_of, read_secret,
  after_copy, copy_sources, settle, copy_secret, output_secret_read_result,
}
use symbol_nem_wallet_core.Facade.Secret.Copies.{copy_sources-KeepsOld}

-- The copy of one secret field: a new storage with the bytes that the backend's array held.
pub record IsDelivered (secret : Value) (name : String) (len : Option ℕ) (h : Heap) (copy : ℕ)
    (h' : Heap) : Type 0 where
  pub id : ℕ
  pub content : List ℕ
  pub read : property secret name ≡ returned (bytes id)
  pub held : h.storage id ≡ live content
  pub fits : has_length len content ≡ true
  pub copied : h'.storage copy ≡ live content
  pub fresh : h.next ≤ copy

-- Each field has its copy, in order.
abbrev pub AreDelivered : Value → Heap → Heap → List SecretField → List SecretCopy → Type 0
AreDelivered secret h h' [] [] = Unit
AreDelivered secret h h' ((name, len) ∷ fields) ((n, copy) ∷ copies) =
    (n ≡ name) × IsDelivered secret name len h copy h' × AreDelivered secret h h' fields copies
AreDelivered secret h h' _ _ = ⊥

-- The backend's arrays exist when its result is converted.
abbrev pub IsAllocated : Value → Heap → Type 0
IsAllocated secret h =
    (name : String) (i : ℕ) → property secret name ≡ returned (bytes i) → i < h.next

abbrev AreRead : Value → List SecretField → List Value → Type 0
AreRead secret [] [] = Unit
AreRead secret ((name, len) ∷ fields) (source ∷ sources) =
    (property secret name ≡ returned source) × AreRead secret fields sources
AreRead secret _ _ = ⊥

push_source-AreRead :
    (secret : Value) (name : String) (len : Option ℕ) (fields : List SecretField)
    (m : Outcome Value) (rest : List Value × Outcome (Unit {0})) (d : Unit {0})
    → property secret name ≡ m
    → ((d : Unit {0}) → rest.1 ≡ returned d → AreRead secret fields rest.0)
    → (push_source m rest).1 ≡ returned d
    → AreRead secret ((name, len) ∷ fields) (push_source m rest).0
push_source-AreRead secret name len fields (returned v) rest d e k t = (e, k d t)
push_source-AreRead secret name len fields (thrown x) rest d e k t = cc

read_sources-AreRead :
    (secret : Value) (fields : List SecretField) (d : Unit {0})
    → (read_sources secret fields).1 ≡ returned d
    → AreRead secret fields (read_sources secret fields).0
unfolding read_sources
read_sources-AreRead secret [] d t = tt
read_sources-AreRead secret ((name, len) ∷ fields) d t =
    push_source-AreRead secret name len fields (property secret name) (read_sources secret fields) d
      refl (read_sources-AreRead secret fields) t

AreRead-allocated :
    (secret : Value) (h : Heap) (fields : List SecretField) (sources : List Value) (i : ℕ)
    → IsAllocated secret h
    → AreRead secret fields sources
    → In (bytes i) sources
    → i < h.next
AreRead-allocated secret h ((name, len) ∷ fields) (s ∷ sources) i a (r, rs) (inl e) =
    a name i (rw (← e) r)
AreRead-allocated secret h ((name, len) ∷ fields) (s ∷ sources) i a (r, rs) (inr m) =
    AreRead-allocated secret h fields sources i a rs m
AreRead-allocated secret h [] [] i a r m = absurd m
AreRead-allocated secret h [] (s ∷ sources) i a r m = absurd r
AreRead-allocated secret h ((name, len) ∷ fields) [] i a r m = absurd r

-- One copy, seen from the heap before the loop and from the one after it.
copy-IsDelivered :
    (secret source : Value) (name : String) (len : Option ℕ) (copy : ℕ) (h k k' h' : Heap)
    → IsAllocated secret h
    → property secret name ≡ returned source
    → KeepsOld h k
    → IsCopy source len k copy k'
    → KeepsOld k' h'
    → IsDelivered secret name len h copy h'
copy-IsDelivered secret source name len copy h k k' h' a r old c later =
    let q : property secret name ≡ returned (bytes c.id) = cc (r, c.is_bytes) in
    record {
      id = c.id;
      content = c.content;
      read = q;
      held = sym (old.same c.id (a name c.id q)) ∙ c.held;
      fits = c.fits;
      copied = later.same copy (omega (arith, c.counted)) ∙ c.copied;
      fresh = omega (arith, c.fresh, old.grows);
    }

after_copy-AreDelivered :
    (secret source : Value) (name : String) (len : Option ℕ) (fields : List SecretField)
    (m : Outcome ℕ) (rest : Heap → Copying) (h k k' : Heap) (d : Unit {0})
    → IsAllocated secret h
    → property secret name ≡ returned source
    → KeepsOld h k
    → ((c : ℕ) → m ≡ returned c → IsCopy source len k c k')
    → KeepsOld k' (rest k').heap
    → ((d : Unit {0})
        → (rest k').result ≡ returned d
        → AreDelivered secret h (rest k').heap fields (rest k').copies)
    → (after_copy name m rest k').result ≡ returned d
    → AreDelivered secret h
        (after_copy name m rest k').heap
        ((name, len) ∷ fields)
        (after_copy name m rest k').copies
after_copy-AreDelivered secret source name len fields (returned c) rest h k k' d a r old copy later
      ih t =
    (
      refl,
      copy-IsDelivered secret source name len c h k k' (rest k').heap a r old (copy c refl) later,
      ih d t,
    )
after_copy-AreDelivered secret source name len fields (thrown e) rest h k k' d a r old copy later ih
      t =
    cc

copy_sources-AreDelivered :
    (secret : Value) (sources : List Value) (fields : List SecretField) (h k : Heap) (d : Unit {0})
    → IsAllocated secret h
    → AreRead secret fields sources
    → KeepsOld h k
    → (copy_sources sources fields k).result ≡ returned d
    → AreDelivered secret h
        (copy_sources sources fields k).heap
        fields
        (copy_sources sources fields k).copies
unfolding copy_sources
copy_sources-AreDelivered secret (s ∷ sources) ((name, len) ∷ fields) h k d a (r, rs) old t =
    let k' = (output_bytes s len k).1 in
    after_copy-AreDelivered secret s name len fields (output_bytes s len k).0
      (copy_sources sources fields) h k k' d a r old (output_bytes-IsCopy s len k)
      (copy_sources-KeepsOld sources fields k')
      (λ d' t'.
        copy_sources-AreDelivered secret sources fields h k' d' a rs
          (KeepsOld-trans old (output_bytes-KeepsOld s len k)) t')
      t
copy_sources-AreDelivered secret [] [] h k d a r old t = tt
copy_sources-AreDelivered secret [] (f ∷ fields) h k d a r old t = absurd r
copy_sources-AreDelivered secret (s ∷ sources) [] h k d a r old t = absurd r

IsDelivered-same :
    {secret : Value} {name : String} {len : Option ℕ} {h h' h'' : Heap} {copy : ℕ}
    → IsDelivered secret name len h copy h'
    → h''.storage copy ≡ h'.storage copy
    → IsDelivered secret name len h copy h''
IsDelivered-same d kept = record {
  id = d.id;
  content = d.content;
  read = d.read;
  held = d.held;
  fits = d.fits;
  copied = kept ∙ d.copied;
  fresh = d.fresh;
}

-- Clearing the sources does not reach the copies, which are newer.
AreDelivered-clear_all :
    (secret : Value) (vs : List Value) (h h' : Heap) (fields : List SecretField)
    (copies : List SecretCopy)
    → ((i : ℕ) → In (bytes i) vs → i < h.next)
    → AreDelivered secret h h' fields copies
    → AreDelivered secret h (clear_all vs h') fields copies
AreDelivered-clear_all secret vs h h' [] [] old d = tt
AreDelivered-clear_all secret vs h h' ((name, len) ∷ fields) ((n, copy) ∷ copies) old (e, d, ds) =
    let kept = clear_all-storage_ne vs copy h' (λ m. absurd (omega (arith, old copy m, d.fresh))) in
    (e, IsDelivered-same d kept, AreDelivered-clear_all secret vs h h' fields copies old ds)
AreDelivered-clear_all secret vs h h' [] (c ∷ copies) old d = absurd d
AreDelivered-clear_all secret vs h h' (f ∷ fields) [] old d = absurd d

settle-AreDelivered :
    (secret : Value) (fields : List SecretField) (sources : List Value) (copies : List SecretCopy)
    (ws : List Warning) (m : Outcome (Unit {0})) (h k : Heap) (r : ReadResult (List SecretCopy))
    → ((i : ℕ) → In (bytes i) sources → i < h.next)
    → ((d : Unit {0}) → m ≡ returned d → AreDelivered secret h k fields copies)
    → (settle sources copies ws m k).0 ≡ returned r
    → AreDelivered secret h (settle sources copies ws m k).1 fields r.value
settle-AreDelivered secret fields sources copies ws (returned d) h k r old del t =
    let q : copies ≡ r.value = ground arith in
    rw (← q) (AreDelivered-clear_all secret sources h k fields copies old (del d refl))
settle-AreDelivered secret fields sources copies ws (thrown e) h k r old del t = cc

copy_secret-AreDelivered :
    (secret : Value) (fields : List SecretField) (sources : List Value) (m : Outcome (List Warning))
    (h : Heap) (r : ReadResult (List SecretCopy))
    → IsAllocated secret h
    → ((ws : List Warning) → m ≡ returned ws → AreRead secret fields sources)
    → (copy_secret fields sources m h).0 ≡ returned r
    → AreDelivered secret h (copy_secret fields sources m h).1 fields r.value
copy_secret-AreDelivered secret fields sources (returned ws) h r a rd t =
    let c = copy_sources sources fields h in
    settle-AreDelivered secret fields sources c.copies ws c.result h c.heap r
      (λ i. AreRead-allocated secret h fields sources i a (rd ws refl))
      (λ d. copy_sources-AreDelivered secret sources fields h h d a (rd ws refl) (KeepsOld-refl h))
      t
copy_secret-AreDelivered secret fields sources (thrown e) h r a rd t = cc

-- Where the sources were all read, or the conversion has thrown.
then-returned :
    {A B : Type 0} (m : Outcome A) (f : A → Outcome B) (b : B)
    → (m >>= f) ≡ returned b
    → (a : A) × (m ≡ returned a)
then-returned (returned a) f b t = (a, refl)
then-returned (thrown e) f b t = cc

read_secret_of-AreRead :
    (v secret : Value) (fields : List SecretField) (m : Outcome Value) (ws : List Warning)
    → m ≡ returned secret
    → (read_secret_of v fields m).1 ≡ returned ws
    → AreRead secret fields (read_secret_of v fields m).0
read_secret_of-AreRead v secret fields (returned w) ws e t =
    let q : w ≡ secret = ground arith in
    let (d, done) = then-returned (read_sources w fields).1 _ ws t in
    subst (λ s. AreRead s fields (read_sources w fields).0) q (read_sources-AreRead w fields d done)
read_secret_of-AreRead v secret fields (thrown x) ws e t = cc

-- A conversion that returns gives, for each secret field in order, a new array with the bytes
-- that the backend's array held, of the length that the field wants, where the backend's arrays
-- exist already.
pub output_secret_read_result-AreDelivered :
    (v secret : Value) (fields : List SecretField) (h : Heap) (r : ReadResult (List SecretCopy))
    → (property v "value" >>= required_object) ≡ returned secret
    → IsAllocated secret h
    → (output_secret_read_result v fields h).0 ≡ returned r
    → AreDelivered secret h (output_secret_read_result v fields h).1 fields r.value
unfolding output_secret_read_result read_secret
output_secret_read_result-AreDelivered v secret fields h r o a t =
    copy_secret-AreDelivered secret fields (read_secret v fields).0 (read_secret v fields).1 h r a
      (λ ws. read_secret_of-AreRead v secret fields (property v "value" >>= required_object) ws o) t
