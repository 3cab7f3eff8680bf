-- ===== src/Api/Inputs.antt =====
-- What a handler's input takes from the path.
use ovcp.Base.{
  ◌≡◌, sym, subst, ◌∙◌, inl, inr, Bool, true, false, Option, none, some, List, [], ◌∷◌, arith, In,
  Text, text_discrete, Map, lookup, insert, lookup-insert_self, lookup-insert_ne,
}
use ovcp.Api.Routes.{set_all, path_values, read_in}

kept-path :
    (path : Text → Text) (k : Text) (wild : List Text) (m : Map Text Text)
    → lookup text_discrete k m ≡ some (path k)
    → lookup text_discrete k (set_all (path_values path wild) m) ≡ some (path k)
unfolding set_all path_values
kept-path path k [] m h = h
kept-path path k (n ∷ ns) m h = elim (text_discrete n k) [
  | yes e ↦ kept-path path k ns (insert text_discrete n (path n) m) (
      subst (λ t. lookup text_discrete k (insert text_discrete t (path t) m) ≡ some (path k))
        (sym e) (lookup-insert_self text_discrete k (path k) m))
  | no d ↦
      kept-path path k ns (insert text_discrete n (path n) m)
        (lookup-insert_ne text_discrete n k (path n) m d ∙ h)
]

some-inj : (a b : Map Text Text) → some a ≡ some b → a ≡ b
some-inj a b h = cc

set-path :
    (path : Text → Text) (k : Text) (wild : List Text) (m : Map Text Text)
    → In k wild
    → lookup text_discrete k (set_all (path_values path wild) m) ≡ some (path k)
unfolding set_all path_values
set-path path k [] m i = absurd i
set-path path k (n ∷ ns) m (inl e) = kept-path path k ns (insert text_discrete n (path n) m) (
    subst (λ t. lookup text_discrete k (insert text_discrete t (path t) m) ≡ some (path k)) (sym e)
      (lookup-insert_self text_discrete k (path k) m))
set-path path k (n ∷ ns) m (inr i) = set-path path k ns (insert text_discrete n (path n) m) i

-- A field named by a wildcard has the value of the path, whatever the body and the query say.
pub read_in-path :
    (is_get : Bool) (query : Map Text Text) (body : Option (Map Text Text)) (path : Text → Text)
    (wild : List Text) (k : Text) (fields : Map Text Text)
    → In k wild
    → read_in is_get query body path wild ≡ some fields
    → lookup text_discrete k fields ≡ some (path k)
unfolding read_in
read_in-path true query body path wild k fields i h =
    subst (λ m. lookup text_discrete k m ≡ some (path k)) (some-inj _ _ h)
      (set-path path k wild (set_all query []) i)
read_in-path false query none path wild k fields i h = absurd (ground arith)
read_in-path false query (some b) path wild k fields i h =
    subst (λ m. lookup text_discrete k m ≡ some (path k)) (some-inj _ _ h)
      (set-path path k wild b i)
