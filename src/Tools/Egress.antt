-- ===== src/Tools/Egress.antt =====
-- agent-os/src/tools/httpRequest.ts: the allowlist test, and the requests handed to `fetch`.
use nastroyka_claude.Exec.{pure, throw, continue, ◌>>=◌}
use nastroyka_claude.Domain.Json.{Json}
use nastroyka_claude.Domain.Errors.{Result, ok, domain_not_allowed, err}
use nastroyka_claude.Base.{
  length-append, eq_text_refl, ◌-◌, drop, take, mem_text, Option-cases, length, ℕ, ◌≡◌, refl, sym,
  ap, subst, ◌∙◌, ◌⊎◌, inl, inr, true, Bool-cases, Option, some, List, [], ◌∷◌, ◌++◌, any, Text,
  text, eq_text, eq_text_iff, ends_with, arith, zero, suc,
}
use nastroyka_claude.Tools.Bodies.{
  Response, request_of, response_json, send, Request, safe_host, is_allowed_for, host_allowed,
  Network, is_host_allowed, http_request,
}

take-drop : (n : ℕ) (s : Text) → take n s ++ drop n s ≡ s
take-drop zero s = refl
take-drop (suc n) [] = refl
take-drop (suc n) (c ∷ s) = ap (λ x. c ∷ x) (take-drop n s)

ends_with-split : (p s : Text) → ends_with p s ≡ true → (front : Text) × (s ≡ front ++ p)
unfolding ends_with
ends_with-split p s h =
    let n = length s - length p in
    (
      take n s,
      sym (take-drop n s)
          ∙ ap (λ x. take n s ++ x) ((eq_text_iff (drop n s) p).0 (ground (arith, h))),
    )

-- A host that an entry of the allowlist stands for: the entry itself, or a name below it.
pub Covers : Text → Text → Type 0
Covers host entry = (host ≡ entry) ⊎ ((front : Text) × (host ≡ front ++ (text "." ++ entry)))

-- A URL whose host an entry of the allowlist stands for.
pub record IsAllowed (hostname : Text → Option Text) (url : Text) (allowlist : List Text)
    : Type 0 where
  pub host : Text
  pub parsed : hostname url ≡ some host
  pub entry : Text
  pub listed : mem_text entry allowlist ≡ true
  pub covered : Covers host entry

covers : (host entry : Text) → is_allowed_for host entry ≡ true → Covers host entry
unfolding Covers
covers host entry h = elim (Bool-cases (eq_text host entry)) [
  | inl e ↦ inl ((eq_text_iff host entry).0 e)
  | inr e ↦ inr (ends_with-split (text "." ++ entry) host (ground (arith, h, e)))
]

covering_entry :
    (host : Text) (allowlist : List Text)
    → any (is_allowed_for host) allowlist ≡ true
    → (entry : Text) × ((mem_text entry allowlist ≡ true) × Covers host entry)
unfolding mem_text
covering_entry host [] h = ground (arith, h)
covering_entry host (d ∷ ds) h = elim (Bool-cases (is_allowed_for host d)) [
  | inl e ↦ (d, (ground (arith, eq_text_refl d), covers host d e))
  | inr e ↦
      (let (entry, (member, covered)) = covering_entry host ds (ground (arith, h, e)) in
        (entry, (ground (arith, member), covered)))
]

is_host_allowed-IsAllowed :
    (hostname : Text → Option Text) (url : Text) (allowlist : List Text)
    → is_host_allowed hostname url allowlist ≡ true
    → IsAllowed hostname url allowlist
unfolding is_host_allowed
is_host_allowed-IsAllowed hostname url allowlist h = elim (Option-cases (hostname url)) [
  | inl e ↦ ground (arith, subst (λ o. host_allowed o allowlist ≡ true) e h)
  | inr (host, e) ↦
      (let (entry, (member, covered)) =
          covering_entry host allowlist (subst (λ o. host_allowed o allowlist ≡ true) e h) in
        record { host = host; parsed = e; entry = entry; listed = member; covered = covered })
]

drop-append : (front p : Text) → drop (length front) (front ++ p) ≡ p
drop-append [] p = refl
drop-append (c ∷ front) p = drop-append front p

ends_with-append : (front p : Text) → ends_with p (front ++ p) ≡ true
unfolding ends_with
ends_with-append front p =
    let n = length-append front p in
    let size : length (front ++ p) - length p ≡ length front = omega (arith, n) in
    rw size (rw (drop-append front p) (rw (eq_text_refl p) (ground (arith, n))))

Covers-allowed : (host entry : Text) → Covers host entry → is_allowed_for host entry ≡ true
unfolding Covers
Covers-allowed host entry (inl e) = ground (arith, (eq_text_iff host entry).1 e)
Covers-allowed host entry (inr (front, e)) =
    let ends : ends_with (text "." ++ entry) host ≡ true =
      ap (ends_with (text "." ++ entry)) e ∙ ends_with-append front (text "." ++ entry) in
    ground (arith, ends)

entry_allows :
    (host entry : Text) (allowlist : List Text)
    → mem_text entry allowlist ≡ true
    → is_allowed_for host entry ≡ true
    → any (is_allowed_for host) allowlist ≡ true
unfolding mem_text
entry_allows host entry [] h allowed = ground (arith, h)
entry_allows host entry (d ∷ ds) h allowed = elim (Bool-cases (eq_text entry d)) [
  | inl e ↦
      let here : is_allowed_for host d ≡ true =
        subst (λ x. is_allowed_for host x ≡ true) ((eq_text_iff entry d).0 e) allowed in
      ground (arith, here)
  | inr e ↦ ground (arith, entry_allows host entry ds (ground (arith, h, e)) allowed)
]

IsAllowed-is_host_allowed :
    (hostname : Text → Option Text) (url : Text) (allowlist : List Text)
    → IsAllowed hostname url allowlist
    → is_host_allowed hostname url allowlist ≡ true
unfolding is_host_allowed
IsAllowed-is_host_allowed hostname url allowlist a =
    ap (λ o. host_allowed o allowlist) a.parsed
    ∙ entry_allows a.host a.entry allowlist a.listed (Covers-allowed a.host a.entry a.covered)

-- What a run of the tool returns when `fetch` gave this.
abbrev pub answered : Result Response → Result Json
answered (ok res) = ok (response_json res)
answered (err e) = err e

-- The two outcomes of a run of the tool, after the given requests: an allowed URL whose one request is
-- handed to `fetch`, or another URL, an error with its host, and no request.
pub Gated : Network → Json → List Text → List Request → Type 0
Gated net input allowlist sent =
    let request = request_of input in
    let out = http_request net input allowlist sent in
    (IsAllowed net.hostname request.url allowlist
      × (out ≡ (answered (net.fetch (length sent) request), sent ++ request ∷ [])))
    ⊎ ((¬ IsAllowed net.hostname request.url allowlist)
        × (out ≡ (err (domain_not_allowed (safe_host net.hostname request.url)), sent)))

-- For a URL whose host is an entry of the allowlist or a name below one, a run of the tool hands `fetch`
-- exactly the request of its input and gives what `fetch` answers; for any other URL, one that does not
-- parse included, it hands `fetch` nothing and throws `DomainNotAllowedError` with the host.
pub http_request_egress :
    (net : Network) (input : Json) (allowlist : List Text) (sent : List Request)
    → Gated net input allowlist sent
unfolding Gated http_request send pure throw ◌>>=◌
http_request_egress net input allowlist sent =
    let request = request_of input in
    elim (Bool-cases (is_host_allowed net.hostname request.url allowlist)) [
      | inl e ↦ inl (
        is_host_allowed-IsAllowed net.hostname request.url allowlist e,
        rw e (given_answer (net.fetch (length sent) request)),
      )
      | inr e ↦ inr (
        (λ a. ground (arith, e, IsAllowed-is_host_allowed net.hostname request.url allowlist a)),
        rw e refl,
      )
    ]
  where
    given_answer :
        (r : Result Response)
        → continue (r, sent ++ request_of input ∷ []) (λ res. pure (response_json res))
          ≡ (answered r, sent ++ request_of input ∷ [])
    given_answer (ok res) = refl
    given_answer (err e) = refl
