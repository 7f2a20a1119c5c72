-- ===== src/Tests/Libraries.antt =====
-- Simple instances of the libraries that the program calls.
use alustan.Base.{
  ◌∙◌, ltb, new_error, ℕ, String, Bool, true, false, List, [], ◌∷◌, some, Result, ok, err, ◌≡◌,
  refl, sym, ap, ◌==◌, if◌then◌else◌, arith,
}
use alustan.Value.{Items, Fields, text, arr, nil, cons, end, field}
use alustan.Cluster.{M, History, Outcome, returns, waiting, crashed}
use alustan.Kube.Retry.{Retry, last, Unstructured}
use alustan.Kube.ArgoCluster.{Backoff, Polls, finished, failed, exhausted, stuck, crashes}
use alustan.Registry.Clients.{TagDecoding}
use alustan.Registry.LatestTag.{Semver}
use alustan.Containers.DockerSecret.{Decoding}
use alustan.Terraform.PostDeploy.{Json}

-- A retry that gives its action one run.
abbrev pub one_run : Retry
one_run = record { on_error = λ retriable m. m; runs = λ retriable m h. last h }

-- A poll of one step.
abbrev one_step : Outcome Bool → Outcome (Unit {0})
one_step (returns (ok true)) = returns (ok tt)
one_step (returns (ok false)) = returns (err (new_error "timed out waiting for the condition"))
one_step (returns (err e)) = returns (err e)
one_step waiting = waiting
one_step crashed = crashed

pub one_step-Polls :
    (m : M Bool) (h : History) (o : Outcome Bool) → (m h).0 ≡ o → Polls m h (one_step o, (m h).1)
one_step-Polls m h (returns (ok true)) e = finished h e
one_step-Polls m h (returns (ok false)) e =
    exhausted h (new_error "timed out waiting for the condition") e
one_step-Polls m h (returns (err x)) e = failed h x e
one_step-Polls m h waiting e = stuck h e
one_step-Polls m h crashed e = crashes h e

abbrev pub one_poll : Backoff
one_poll = record {
  exponential_backoff = λ m h. (one_step (m h).0, (m h).1);
  runs = λ m h. one_step-Polls m h (m h).0 refl;
}

-- Objects whose first field is the slice of strings.
abbrev item_texts : Items → List String
item_texts nil = []
item_texts (cons (text s) xs) = s ∷ item_texts xs
item_texts (cons _ xs) = item_texts xs

abbrev text_items : List String → Items
text_items [] = nil
text_items (s ∷ ss) = cons (text s) (text_items ss)

pub item_texts-text_items : (ss : List String) → item_texts (text_items ss) ≡ ss
item_texts-text_items [] = refl
item_texts-text_items (s ∷ ss) = ap (λ rest. s ∷ rest) (item_texts-text_items ss)

abbrev first_slice : Fields → List String
first_slice (field _ (arr xs) _) = item_texts xs
first_slice _ = []

abbrev ok_or_end : Result Fields → Fields
ok_or_end (ok object) = object
ok_or_end (err _) = end

abbrev pub with_finalizers : List String → Fields
with_finalizers slice = field "finalizers" (arr (text_items slice)) end

abbrev pub first_field : Unstructured
first_field = record {
  nested_string_slice = λ object path. first_slice object;
  set_nested_string_slice = λ object slice path. ok (with_finalizers slice);
  slice-set = λ object slice path object' e.
      sym (ap (λ r. first_slice (ok_or_end r)) e) ∙ item_texts-text_items slice;
}

-- Three versions.
abbrev version_of : String → Result ℕ
version_of tag =
    if tag == "1.0.0"
    then ok 1
    else if tag == "1.1.0"
    then ok 2
    else if tag == "2.0.0"
    then ok 3
    else err (new_error "Invalid Semantic Version")

abbrev text_of_version : ℕ → String
text_of_version v = if ltb v 2 then "1.0.0" else if ltb v 3 then "1.1.0" else "2.0.0"

pub ltb_irrefl : (v : ℕ) → ltb v v ≡ false
ltb_irrefl v = ground arith

pub ltb-asymm : (v w : ℕ) → ltb w v ≡ true → ltb v w ≡ false
ltb-asymm v w e = ground arith

pub ltb_trans : (u v w : ℕ) → ltb v u ≡ false → ltb w v ≡ false → ltb w u ≡ false
ltb_trans u v w p q = ground arith

abbrev pub three_versions : Semver ℕ
three_versions = record {
  new_version = version_of;
  new_constraint =
      λ s. if s == "~1" then ok (λ v. ltb v 3) else err (new_error "improper constraint");
  greater_than = λ u v. ltb v u;
  version_text = text_of_version;
  greater_irrefl = ltb_irrefl;
  greater_asymm = ltb-asymm;
  not-greater-trans = ltb_trans;
}

abbrev pub plain_json : Json
plain_json = record { marshal = λ v. ok "{}"; unmarshal_map = λ s. ok end }

abbrev pub plain_decoding : Decoding
plain_decoding = record {
  base64 = λ s. ok s;
  docker_auths = λ s. ok (("ghcr.io", "user:token") ∷ []);
  split_colon = λ s. some ("user", "token");
}

abbrev pub plain_tags : TagDecoding
plain_tags = record {
  new_request = λ url. ok tt;
  docker_tags = λ s. ok (s ∷ []);
  ghcr_tags = λ s. ok (s ∷ "2.0.0" ∷ []);
}
