-- ===== src/Template/Substitution.antt =====
-- src/template.rs: parsing a template and rendering it substitutes the placeholders.
use irc2torrent.Prelude.{
  ℕ, zero, suc, ◌≡◌, refl, ◌∙◌, ap, sym, inl, inr, List, [], ◌∷◌, ◌++◌, arith, Text, Option, none,
  some, ok, length, get_elem?, text_eq_iff, Option-cases, append-nil, append_assoc,
}
use irc2torrent.Template.{
  Part, literal, field, Lexer, position, flush_literal, push_field, intern, push_name, initial,
  FieldSource, TextTemplate, parse, join, render_part, append_text, render_parts, render,
}
use irc2torrent.Template.Run.{
  lex_rest, lex-rest, lex_rest-nil, lex_rest-escape, lex_rest-name, escape, push_text, IsName,
}

-- What a template is made of, before it is spelled out.
pub data Token : Type 0 where
  text : Text → Token
  hole : Text → Token

abbrev pub print : List Token → Text
print [] = []
print (text t ∷ ts) = escape t ++ print ts
print (hole name ∷ ts) = b'{' ∷ (name ++ (b'}' ∷ print ts))

abbrev pub HasNames : List Token → Type 0
HasNames [] = Unit
HasNames (text t ∷ ts) = HasNames ts
HasNames (hole name ∷ ts) = IsName name × HasNames ts

-- Each placeholder replaced by its field's values, joined by commas.
abbrev pub substitute : FieldSource → List Token → Text
substitute fields [] = []
substitute fields (text t ∷ ts) = t ++ substitute fields ts
substitute fields (hole name ∷ ts) = join (fields.values name) ++ substitute fields ts

run_tokens : Lexer → List Token → Lexer
run_tokens s [] = s
run_tokens s (text t ∷ ts) = run_tokens (push_text s t) ts
run_tokens s (hole name ∷ ts) = run_tokens (push_name s name) ts

lex_rest-print :
    (ts : List Token) (s : Lexer)
    → HasNames ts
    → lex_rest s (print ts) ≡ ok (flush_literal (run_tokens s ts))
unfolding run_tokens
lex_rest-print [] s h = lex_rest-nil s
lex_rest-print (text t ∷ ts) s h =
    lex_rest-escape t s (print ts) ∙ lex_rest-print ts (push_text s t) h
lex_rest-print (hole name ∷ ts) s h =
    lex_rest-name s name (print ts) h.0 ∙ lex_rest-print ts (push_name s name) h.1

get_elem?-grow :
    (names more : List Text) (i : ℕ) (name : Text)
    → get_elem? names i ≡ some name
    → get_elem? (names ++ more) i ≡ some name
get_elem?-grow [] more i name h = cc
get_elem?-grow (n ∷ names) more zero name h = h
get_elem?-grow (n ∷ names) more (suc i) name h = get_elem?-grow names more i name h

get_elem?-last :
    (names : List Text) (name : Text) → get_elem? (names ++ name ∷ []) (length names) ≡ some name
get_elem?-last [] name = refl
get_elem?-last (n ∷ names) name = get_elem?-last names name

position_lem :
    (name : Text) (names : List Text) (i : ℕ)
    → position name names ≡ some i
    → get_elem? names i ≡ some name
unfolding position
position_lem name [] i h = cc
position_lem name (n ∷ names) zero h = ground (arith, text_eq_iff n name, position_lem name names)
position_lem name (n ∷ names) (suc i) h = ground (arith, position_lem name names i)

append_text_assoc :
    (a b c : Option Text) → append_text a (append_text b c) ≡ append_text (append_text a b) c
unfolding append_text
append_text_assoc (some a) (some b) (some c) = ap some (sym (append_assoc a b c))
append_text_assoc none b c = refl
append_text_assoc (some a) none c = refl
append_text_assoc (some a) (some b) none = refl

module _ (fields : FieldSource) where
  render_part-grow :
      (names more : List Text) (p : Part) (out : Text)
      → render_part names fields p ≡ some out
      → render_part (names ++ more) fields p ≡ some out
  unfolding render_part
  render_part-grow names more (literal t) out h = h
  render_part-grow names more (field i) out h = elim (Option-cases (get_elem? names i)) [
    | inl missing ↦ ground arith
    | inr (name, found) ↦ ground (arith, get_elem?-grow names more i name found)
  ]

  append_text-some :
      (a b : Option Text) (out : Text)
      → append_text a b ≡ some out
      → (x : Text) × (y : Text) × (a ≡ some x) × (b ≡ some y) × (out ≡ x ++ y)
  unfolding append_text
  append_text-some (some x) (some y) out h = (x, y, refl, refl, cc)
  append_text-some (some x) none out h = cc
  append_text-some none b out h = cc

  render_parts-grow :
      (names more : List Text) (ps : List Part) (out : Text)
      → render_parts names fields ps ≡ some out
      → render_parts (names ++ more) fields ps ≡ some out
  unfolding render_parts append_text
  render_parts-grow names more [] out h = h
  render_parts-grow names more (p ∷ ps) out h =
      let (x, y, hx, hy, e) =
        append_text-some (render_part names fields p) (render_parts names fields ps) out h in
      rw (render_part-grow names more p x hx, render_parts-grow names more ps y hy)
        (ap some (sym e))

  render_parts-append :
      (names : List Text) (ps qs : List Part)
      → render_parts names fields (ps ++ qs)
        ≡ append_text (render_parts names fields ps) (render_parts names fields qs)
  unfolding render_parts append_text
  render_parts-append names [] qs = ground arith
  render_parts-append names (p ∷ ps) qs = rw (render_parts-append names ps qs) (
      append_text_assoc (render_part names fields p) (render_parts names fields ps)
        (render_parts names fields qs))

  -- What the state renders to: the parts so far, and the literal that is still being read.
  Renders : Lexer → Text → Type 0
  Renders s out =
      (done : Text) × (render_parts s.names fields s.parts ≡ some done)
      × (done ++ s.literal_text ≡ out)

  Renders-push_text :
      (s : Lexer) (t out : Text) → Renders s out → Renders (push_text s t) (out ++ t)
  unfolding Renders
  Renders-push_text s t out (done, h, e) =
      (done, h, sym (append_assoc done s.literal_text t) ∙ ap (λ x. x ++ t) e)

  render_parts-flush :
      (s : Lexer) (out : Text)
      → Renders s out
      → render_parts s.names fields (flush_literal s).parts ≡ some out
  unfolding Renders flush_literal render_parts render_part append_text
  render_parts-flush s out (done, h, e) = flushed s.literal_text refl
    where
      flushed :
          (l : Text)
          → s.literal_text ≡ l
          → render_parts s.names fields (flush_literal s).parts ≡ some out
      flushed [] none_left =
          rw none_left
            (h ∙ ap some (sym (append-nil done) ∙ ap (λ x. done ++ x) (sym none_left) ∙ e))
      flushed (c ∷ cs) left = rw left (
          render_parts-append s.names s.parts (literal (c ∷ cs) ∷ [])
          ∙ rw (h, append-nil (c ∷ cs)) (ap some (ap (λ x. done ++ x) (sym left) ∙ e)))

  flush_literal-fields :
      (s : Lexer) → ((flush_literal s).names ≡ s.names) × ((flush_literal s).literal_text ≡ [])
  unfolding flush_literal
  flush_literal-fields s = emptied s.literal_text refl
    where
      emptied :
          (l : Text)
          → s.literal_text ≡ l
          → ((flush_literal s).names ≡ s.names) × ((flush_literal s).literal_text ≡ [])
      emptied [] e = (rw e, rw e)
      emptied (c ∷ cs) e = (rw e, rw e)

  render_parts-field :
      (names : List Text) (i : ℕ) (name : Text)
      → get_elem? names i ≡ some name
      → render_parts names fields (field i ∷ []) ≡ some (join (fields.values name) ++ [])
  unfolding render_parts render_part append_text
  render_parts-field names i name found = ground arith

  Renders-push_field :
      (s : Lexer) (i : ℕ) (name out : Text)
      → Renders s out
      → get_elem? s.names i ≡ some name
      → Renders (push_field (flush_literal s) i) (out ++ join (fields.values name))
  unfolding Renders push_field append_text
  Renders-push_field s i name out r found =
      let (same, emptied) = flush_literal-fields s in
      (
        out ++ join (fields.values name),
        rw same (
            render_parts-append s.names (flush_literal s).parts (field i ∷ [])
            ∙ rw (render_parts-flush s out r, render_parts-field s.names i name found)
                (ap some (ap (λ x. out ++ x) (append-nil (join (fields.values name)))))),
        rw emptied (append-nil (out ++ join (fields.values name))),
      )

  Renders-grow :
      (s : Lexer) (name out : Text)
      → Renders s out
      → Renders (record s { names = s.names ++ name ∷ [] }) out
  unfolding Renders
  Renders-grow s name out (done, h, e) =
      (done, render_parts-grow s.names (name ∷ []) s.parts done h, e)

  Renders-push_name :
      (s : Lexer) (name out : Text)
      → Renders s out
      → Renders (push_name s name) (out ++ join (fields.values name))
  unfolding push_name
  Renders-push_name s name out r = elim (Option-cases (position name s.names)) [
    | inl new ↦
        rw (new, intern)
          (Renders-push_field (record s { names = s.names ++ name ∷ [] }) (length s.names) name out
            (Renders-grow s name out r) (get_elem?-last s.names name))
    | inr (i, old) ↦
        rw (old, intern) (Renders-push_field s i name out r (position_lem name s.names i old))
  ]

  Renders-run_tokens :
      (ts : List Token) (s : Lexer) (out : Text)
      → Renders s out
      → Renders (run_tokens s ts) (out ++ substitute fields ts)
  unfolding run_tokens
  Renders-run_tokens [] s out r = rw (append-nil out) r
  Renders-run_tokens (text t ∷ ts) s out r =
      rw (← append_assoc out t (substitute fields ts))
        (Renders-run_tokens ts (push_text s t) (out ++ t) (Renders-push_text s t out r))
  Renders-run_tokens (hole name ∷ ts) s out r =
      rw (← append_assoc out (join (fields.values name)) (substitute fields ts)) (
        Renders-run_tokens ts (push_name s name) (out ++ join (fields.values name))
          (Renders-push_name s name out r))

  Renders-initial : Renders initial []
  unfolding Renders render_parts
  Renders-initial = ([], refl, refl)

-- The template that spells out a list of literals and valid placeholder names, whatever braces the
-- literals hold, is accepted, and it renders to the literals with each placeholder replaced by its
-- field's values. The index into the names is never out of range.
pub render-parse :
    (ts : List Token) (fields : FieldSource)
    → HasNames ts
    → (t : TextTemplate) × (parse (print ts) ≡ ok t)
      × (render t fields ≡ some (substitute fields ts))
unfolding parse render
render-parse ts fields h =
    let s = flush_literal (run_tokens initial ts) in
    (
      record { parts = s.parts; names = s.names },
      rw (lex-rest (print ts), lex_rest-print ts initial h),
      rw (flush_literal-fields fields (run_tokens initial ts)).0 (
          render_parts-flush fields (run_tokens initial ts) (substitute fields ts)
            (Renders-run_tokens fields ts initial [] (Renders-initial fields))),
    )
