-- ===== src/Scram/ClientFirst/Grammar.antt =====
-- Which messages `ClientFirst::parse` of src/scram_verifier.rs accepts, and what it keeps of them.
use mathlib.Core.List.{append_assoc}
use mathlib.Core.Path.{subst, ap₂}
use pywire.Base.{
  ◌-◌, ◌<◌, ◌≡◌, refl, sym, ap, ◌∙◌, true, Option, none, some, List, [], ◌∷◌, ◌++◌, arith, Text,
  codes, length, take, All, length-append, take-append, ok, inl, inr, Bool-cases, Option-cases,
}
use pywire.Scram.Split.{split_once, split}
use pywire.Scram.Split.Laws.{
  Lacks, split-All-Lacks, strip_prefix-eq_some, split_once-append, split_once-eq_some, split-append,
  split-Lacks,
}
use pywire.Scram.ClientFirst.{ClientFirst, is_authzid, attributes, finish, parse}

-- The header of RFC 5802: the channel-binding flag and the authorization identity.
abbrev pub gs2 : Text → Text → Text
gs2 flag authzid = flag ++ (b',' ∷ (authzid ++ (b',' ∷ [])))

-- An attribute and the extensions behind it.
abbrev pub with_extensions : Text → List Text → Text
with_extensions a [] = a
with_extensions a (x ∷ xs) = a ++ (b',' ∷ with_extensions x xs)

-- The bare message: user name, nonce, and what extensions follow.
abbrev pub bare_message : Text → Text → List Text → Text
bare_message user nonce exts =
    (codes "n=" ++ user) ++ (b',' ∷ with_extensions (codes "r=" ++ nonce) exts)

gs2-append :
    (flag authzid bare : Text)
    → gs2 flag authzid ++ bare ≡ flag ++ (b',' ∷ (authzid ++ (b',' ∷ bare)))
gs2-append flag authzid bare =
    append_assoc flag (b',' ∷ (authzid ++ (b',' ∷ []))) bare
    ∙ ap (λ t. flag ++ (b',' ∷ t)) (append_assoc authzid (b',' ∷ []) bare)

take_header :
    (header bare : Text) → take (length (header ++ bare) - length bare) (header ++ bare) ≡ header
take_header header bare =
    let e : length (header ++ bare) - length bare ≡ length header =
      omega (arith, length-append header bare) in
    rw e (take-append header bare)

header-gs2 :
    (flag authzid bare : Text)
    → let message = flag ++ (b',' ∷ (authzid ++ (b',' ∷ bare))) in
      take (length message - length bare) message ≡ gs2 flag authzid
header-gs2 flag authzid bare =
    rw (sym (gs2-append flag authzid bare)) (take_header (gs2 flag authzid) bare)

split-with_extensions :
    (a : Text) (exts : List Text)
    → Lacks b',' a
    → (rest : List Text) × (split b',' (with_extensions a exts) ≡ a ∷ rest)
split-with_extensions a [] h = ([], split-Lacks b',' a h)
split-with_extensions a (x ∷ xs) h =
    (split b',' (with_extensions x xs), split-append b',' a (with_extensions x xs) h)

attributes-two :
    (user nonce : Text) (rest : List Text)
    → attributes (codes "n=") (codes "r=") ((codes "n=" ++ user) ∷ (codes "r=" ++ nonce) ∷ rest)
      ≡ (some user, some nonce)
unfolding attributes
attributes-two user nonce rest = refl

attributes-bare_message :
    (user nonce : Text) (exts : List Text)
    → Lacks b',' user
    → Lacks b',' nonce
    → attributes (codes "n=") (codes "r=") (split b',' (bare_message user nonce exts))
      ≡ (some user, some nonce)
attributes-bare_message user nonce exts hu hn =
    let (rest, e) = split-with_extensions (codes "r=" ++ nonce) exts (refl, (refl, hn)) in
    rw
      (split-append b',' (codes "n=" ++ user) (with_extensions (codes "r=" ++ nonce) exts)
        (refl, (refl, hu)))
      (rw e (attributes-two user nonce rest))

finish-eq_ok :
    (message flag bare user nonce : Text)
    → 0 < length nonce
    → finish message flag bare (some user, some nonce)
      ≡ ok (record {
        cbind_flag = flag;
        gs2_header = take (length message - length bare) message;
        bare = bare;
        nonce = nonce;
      })
unfolding finish
finish-eq_ok message flag bare user nonce h = ground arith

-- Every message of the grammar is accepted, with any user name, any non-empty nonce and any
-- extensions, and the gs2 header and the bare message are kept verbatim.
pub parse-gs2 :
    (flag authzid user nonce : Text) (exts : List Text)
    → Lacks b',' flag
    → Lacks b',' authzid
    → is_authzid authzid ≡ true
    → Lacks b',' user
    → Lacks b',' nonce
    → 0 < length nonce
    → parse (gs2 flag authzid ++ bare_message user nonce exts)
      ≡ ok (record {
        cbind_flag = flag;
        gs2_header = gs2 flag authzid;
        bare = bare_message user nonce exts;
        nonce = nonce;
      })
unfolding parse
parse-gs2 flag authzid user nonce exts hf ha authz hu hn some_nonce =
    let bare = bare_message user nonce exts in
    rw (
      gs2-append flag authzid bare,
      split_once-append b',' flag (authzid ++ (b',' ∷ bare)) hf,
      split_once-append b',' authzid bare ha,
      authz,
      attributes-bare_message user nonce exts hu hn,
      finish-eq_ok (flag ++ (b',' ∷ (authzid ++ (b',' ∷ bare)))) flag bare user nonce some_nonce,
      header-gs2 flag authzid bare,
    )

-- What an accepted message was read from.
pub record Accepted (message : Text) (first : ClientFirst) : Type 0 where
  pub authzid : Text
  pub user : Text
  pub rest : List Text
  pub message_eq : message ≡ first.gs2_header ++ first.bare
  pub header_eq : first.gs2_header ≡ gs2 first.cbind_flag authzid
  pub authzid_ok : is_authzid authzid ≡ true
  pub bare_eq : split b',' first.bare ≡ (codes "n=" ++ user) ∷ (codes "r=" ++ first.nonce) ∷ rest
  pub nonce_lacks : Lacks b',' first.nonce
  pub some_nonce : 0 < length first.nonce

finish-ok :
    (message flag bare : Text) (found : Option Text × Option Text) (first : ClientFirst)
    → finish message flag bare found ≡ ok first
    → (user : Text) × (found ≡ (some user, some first.nonce))
      × (0 < length first.nonce)
      × (first.cbind_flag ≡ flag)
      × (first.gs2_header ≡ take (length message - length bare) message)
      × (first.bare ≡ bare)
unfolding finish
finish-ok message flag bare (none, _) first h = absurd (ground arith)
finish-ok message flag bare (some _, none) first h = absurd (ground arith)
finish-ok message flag bare (some user, some nonce) first h =
    (user, ground arith, ground arith, ground arith, ground arith, ground arith)

pub attributes-eq_some :
    (p q : Text) (parts : List Text) (a b : Text)
    → attributes p q parts ≡ (some a, some b)
    → (rest : List Text) × (parts ≡ (p ++ a) ∷ (q ++ b) ∷ rest)
unfolding attributes
attributes-eq_some p q [] a b h = absurd (ground arith)
attributes-eq_some p q (x ∷ []) a b h = absurd (ground arith)
attributes-eq_some p q (x ∷ y ∷ rest) a b h = (
  rest,
  ap₂ (λ s t. s ∷ t ∷ rest) (strip_prefix-eq_some p x a (ground arith))
      (strip_prefix-eq_some q y b (ground arith)),
)

second-Lacks :
    (parts : List Text) (x y : Text) (rest : List Text)
    → parts ≡ x ∷ (codes "r=" ++ y) ∷ rest
    → All (Lacks b',') parts
    → Lacks b',' y
second-Lacks parts x y rest e h = (subst (All (Lacks b',')) e h).1.0.1.1

accepted :
    (message flag rest authzid bare : Text) (first : ClientFirst)
    → split_once b',' message ≡ some (flag, rest)
    → split_once b',' rest ≡ some (authzid, bare)
    → is_authzid authzid ≡ true
    → finish message flag bare (attributes (codes "n=") (codes "r=") (split b',' bare)) ≡ ok first
    → Accepted message first
accepted message flag rest authzid bare first e e' good h =
    let (user, found, some_nonce, flag_eq, header, bare_eq) =
      finish-ok message flag bare _ first h in
    let (exts, parts) =
      attributes-eq_some (codes "n=") (codes "r=") (split b',' bare) user first.nonce found in
    let whole : message ≡ flag ++ (b',' ∷ (authzid ++ (b',' ∷ bare))) =
      (split_once-eq_some b',' message flag rest e).0
      ∙ ap (λ t. flag ++ (b',' ∷ t)) (split_once-eq_some b',' rest authzid bare e').0 in
    let header_eq : first.gs2_header ≡ gs2 flag authzid =
      header ∙ ap (λ m. take (length m - length bare) m) whole ∙ header-gs2 flag authzid bare in
    record {
      authzid = authzid;
      user = user;
      rest = exts;
      message_eq =
          whole ∙ sym (gs2-append flag authzid bare) ∙ ap₂ ◌++◌ (sym header_eq) (sym bare_eq);
      header_eq = header_eq ∙ ap (λ f. gs2 f authzid) (sym flag_eq);
      authzid_ok = good;
      bare_eq = ap (split b',') bare_eq ∙ parts;
      nonce_lacks =
          second-Lacks (split b',' bare) (codes "n=" ++ user) first.nonce exts parts
            (split-All-Lacks b',' bare);
      some_nonce = some_nonce;
    }

-- An accepted message is a gs2 header with a legal authorization identity and a bare message whose
-- first attribute is a user name and whose second is a nonce that is not empty; header, bare message
-- and nonce are kept as they were sent.
pub parse-Accepted :
    (message : Text) (first : ClientFirst) → parse message ≡ ok first → Accepted message first
unfolding parse
parse-Accepted message first h = elim (Option-cases (split_once b',' message)) [
  | inl e ↦ absurd (ground arith)
  | inr ((flag, rest), e) ↦ elim (Option-cases (split_once b',' rest)) [
    | inl e' ↦ absurd (ground arith)
    | inr ((authzid, bare), e') ↦ elim (Bool-cases (is_authzid authzid)) [
      | inr bad ↦ absurd (ground arith)
      | inl good ↦ accepted message flag rest authzid bare first e e' good (ground arith)
    ]
  ]
]
