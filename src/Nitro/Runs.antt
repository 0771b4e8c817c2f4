-- ===== src/Nitro/Runs.antt =====
-- Runs of the verifier and the theorems there.
use pzd.Base.{ℕ, zero, suc, ◌≤◌, ◌≡◌, arith, refl, true, some, List, [], ◌∷◌, codes, inl}
use pzd.Base.Int.{pos}
use pzd.Base.Result.{ok}
use pzd.Nitro.Formats.{Extension}
use pzd.Nitro.Verifier.{parse_and_verify}
use mathlib.Core.Path.{subst}
use mathlib.Core.List.{Permᴰ}
use pzd.Base.{bytes_eq_refl}
use pzd.Nitro.Attestation.{assert_fresh, get_pcr, lower}
use pzd.Nitro.Chain.{read_root}
use pzd.Nitro.Document.{parse}
use pzd.Nitro.Issuing.{MayIssue, Fine}
use pzd.Nitro.Signing.{SignedBy}
use pzd.Nitro.Pool.{Distinct}
use pzd.Nitro.Route.{Route, issued_by, last}
use pzd.Nitro.Trust.{Trusted}
use pzd.Nitro.Links.{Link, Links}
use pzd.Nitro.Verified.{Verified, Measures, parse_and_verify-Verified, Verified-parse_and_verify}
use pzd.Nitro.Toy.{Toy, toy, toy_leaf, toy_middle, toy_root, toy_extensions, toy_attestation}

pub toy_parsed : parse toy (codes "doc") ≡ ok toy_attestation
unfolding parse
toy_parsed = refl

-- The bundle comes with the root first.
toy_run :
    parse_and_verify toy
      (some 1_000)
      (codes "doc")
      (codes "root")
      (pos 1_000_999)
      (pos 0)
      (some (codes "aB"))
    ≡ ok toy_attestation
unfolding parse_and_verify
toy_run = refl

parse_and_verify-Verified_example :
    Verified toy
      (some 1_000)
      (codes "doc")
      (codes "root")
      (pos 1_000_999)
      (pos 0)
      (some (codes "aB"))
      toy_attestation
parse_and_verify-Verified_example =
    parse_and_verify-Verified toy (some 1_000) (codes "doc") (codes "root") (pos 1_000_999) (pos 0)
      (some (codes "aB")) toy_attestation toy_run

abbrev pub toy_pool : List Toy
toy_pool = toy_root ∷ toy_middle ∷ []

pub toy-Distinct : Distinct toy toy_pool
toy-Distinct = ((λ e. absurd (omega arith), tt), (tt, tt))

-- A certificate that is a CA.
toy-MayIssue :
    (n : ℕ) (c : Toy)
    → n ≤ 1
    → toy_extensions c
      ≡ some (
          record { extn_id = codes "2.5.29.19"; extn_value = 1 ∷ [] }
          ∷ record { extn_id = codes "2.5.29.15"; extn_value = 1 ∷ [] }
          ∷ [])
    → MayIssue toy n c
toy-MayIssue n c h e = record {
  exts =
      record { extn_id = codes "2.5.29.19"; extn_value = 1 ∷ [] }
      ∷ record { extn_id = codes "2.5.29.15"; extn_value = 1 ∷ [] }
      ∷ [];
  has_exts = e;
  fine = (toy_fine, (toy_fine, tt));
  constrained = inl refl;
}
  where
    toy_fine : {ext : Extension} → Fine toy n ext
    toy_fine = (
      (λ i. record {
        bc = record { ca = true; path_len_constraint = some 1 };
        decoded = refl;
        is_ca = refl;
        within = h;
      }),
      λ i. record { usage = record { key_cert_sign = true }; decoded = refl; signs = refl },
    )

toy-Route : Route toy toy_root toy_leaf toy_pool (toy_leaf ∷ toy_middle ∷ [])
toy-Route = record {
  picked = toy_middle ∷ [];
  spare = toy_root ∷ [];
  from_leaf = refl;
  steps = issued_by (λ e. absurd (omega arith)) refl (last refl);
  drawn = Permᴰ.swap refl refl;
}

toy-SignedBy : (c d : Toy) → c.issuer ≡ d.subject → SignedBy toy d c
toy-SignedBy c d e = record {
  key = d.subject ∷ [];
  signed = c.subject ∷ [];
  bits = c.issuer ∷ c.subject ∷ [];
  sig = c.issuer ∷ c.subject ∷ [];
  has_key = refl;
  has_signed = refl;
  has_bits = refl;
  has_sig = refl;
  verifies = rw e (bytes_eq_refl (d.subject ∷ c.subject ∷ []));
}

toy-Link :
    (i : ℕ) (c d : Toy) → i ≤ 1 → c.issuer ≡ d.subject → MayIssue toy i d → Link toy 1_000 i c d
toy-Link i c d h e m = record {
  valid = (omega arith, omega arith);
  named = e;
  may_issue = m;
  signed = toy-SignedBy c d e;
}

toy-Links : Links toy 1_000 toy_root (toy_leaf ∷ toy_middle ∷ [])
toy-Links zero c e =
    let same : toy_leaf ≡ c = cc in
    subst (λ c. Link toy 1_000 0 c toy_middle) same
      (toy-Link 0 toy_leaf toy_middle (omega arith) refl
        (toy-MayIssue 0 toy_middle (omega arith) refl))
toy-Links (suc zero) c e =
    let same : toy_middle ≡ c = cc in
    subst (λ c. Link toy 1_000 1 c toy_root) same
      (toy-Link 1 toy_middle toy_root (omega arith) refl
        (toy-MayIssue 1 toy_root (omega arith) refl))
toy-Links (suc (suc i)) c e = absurd (cc)

toy_Trusted : Trusted toy 1_000 (1 ∷ []) ((3 ∷ []) ∷ (2 ∷ []) ∷ []) (codes "root")
unfolding read_root
toy_Trusted = record {
  leaf = toy_leaf;
  pool = toy_pool;
  root = toy_root;
  chain = toy_leaf ∷ toy_middle ∷ [];
  is_leaf = refl;
  is_pool = (refl, (refl, tt));
  is_root = refl;
  route = toy-Route;
  links = toy-Links;
  root_valid = (omega arith, omega arith);
}

toy_Verified :
    Verified toy
      (some 1_000)
      (codes "doc")
      (codes "root")
      (pos 1_000_999)
      (pos 0)
      (some (codes "aB"))
      toy_attestation
unfolding parse assert_fresh get_pcr lower
toy_Verified = record {
  leaf_der = 1 ∷ [];
  cabundle = (3 ∷ []) ∷ (2 ∷ []) ∷ [];
  now = 1_000;
  parsed = refl;
  has_chain = refl;
  has_clock = refl;
  trusted = toy_Trusted;
  signed = record {
    doc = codes "doc";
    leaf = toy_leaf;
    key = 1 ∷ [];
    sig = 1 ∷ codes "doc";
    is_doc = refl;
    is_es384 = refl;
    is_leaf = refl;
    has_key = refl;
    has_sig = refl;
    verifies = refl;
  };
  fresh = refl;
  measured = λ pcr0 e.
      let same : codes "aB" ≡ pcr0 = cc in
      subst (λ q. Measures q toy_attestation) same (codes "AB", refl, refl);
}

Verified-parse_and_verify_example :
    parse_and_verify toy
      (some 1_000)
      (codes "doc")
      (codes "root")
      (pos 1_000_999)
      (pos 0)
      (some (codes "aB"))
    ≡ ok toy_attestation
unfolding toy_Verified toy_Trusted
Verified-parse_and_verify_example =
    Verified-parse_and_verify toy (some 1_000) (codes "doc") (codes "root") (pos 1_000_999) (pos 0)
      (some (codes "aB")) toy_attestation toy_Verified toy-Distinct
