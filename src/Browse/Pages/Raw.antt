-- ===== src/Browse/Pages/Raw.antt =====
-- handleBlob and handleRaw of internal/browse/pages.go, on the same request.
use gitd.Browse.Blob.{
  lower, Renderers, resolve_blob_lexer, render_markdown_server, shown, is_markdown,
}
use gitd.Prelude.{
  ℕ, zero, suc, ◌≡◌, refl, sym, ap, ◌∙◌, Bool, false, inl, inr, [], ◌∷◌, Bytes, codes, Option, none,
  some, str_eq, is_nil, ltb, length, take, Bool-cases, arith,
}
use mathlib.Core.Path.{subst}
use gitd.Prelude.Result.{Result, ok, err, >>=-eq-ok}
use gitd.Browse.Paths.{repo_dir, clean_repo_path, blob_at, max_render_bytes}
use gitd.Browse.Text.{html_escape, file_base}
use gitd.Browse.Views.{
  Handler, Query, Response, Page, PageError, BlobView, html, attachment, blob_page,
}
use gitd.Browse.Pages.{
  respond, from_git, render_action, handle_blob, handle_raw, blob_of, body_of, code_body,
  markdown_body, or_render_failed, ref_or_default,
}

respond-html {ℓ} :
    {A : Type ℓ} (f : A → Response) (r : Result PageError A) (p : Page)
    → respond f r ≡ html p
    → (a : A) × (r ≡ ok a) × (f a ≡ html p)
respond-html f (ok a) p h = (a, refl, h)
respond-html f (err e) p h = cc

module _ {Lexer : Type 0} (r : Renderers Lexer) where
  -- HTML for a text: the text escaped, or what a renderer made of it.
  pub data IsSafe (s : Bytes) : Bytes → Type 0 where
    escaped : IsSafe s (html_escape s)
    from_markdown : {out : Bytes} → render_markdown_server r s ≡ some out → IsSafe s out
    highlighted : {out : Bytes} (l : Lexer) → r.highlight l s ≡ some out → IsSafe s out

  or_render_failed-ok : {A : Type 0} (o : Option A) (a : A) → or_render_failed o ≡ ok a → o ≡ some a
  or_render_failed-ok none a h = cc
  or_render_failed-ok (some b) a h = cc

  -- what a page says of a file that holds `content`
  pub record IsViewOf (content : Bytes) (v : BlobView) : Type 0 where
    pub text : v.raw_markdown ≡ take max_render_bytes content
    pub cut_off : v.truncated ≡ ltb max_render_bytes (length content)
    pub safe : IsSafe v.raw_markdown v.body

abbrev ok_or {ℓ} : {A : Type ℓ} → A → Result PageError A → A
ok_or a (ok b) = b
ok_or a (err e) = a

take-all : (n : ℕ) (s : Bytes) → ltb n (length s) ≡ false → s ≡ take n s
take-all zero [] h = refl
take-all zero (c ∷ s) h = ground arith
take-all (suc n) [] h = refl
take-all (suc n) (c ∷ s) h = ap (λ l. c ∷ l) (take-all n s (ground arith))

shown-take : (s : Bytes) → shown s ≡ take max_render_bytes s
shown-take s = elim (Bool-cases (ltb max_render_bytes (length s))) [
  | inl e ↦ rw e refl
  | inr e ↦ rw e (take-all max_render_bytes s e)
]

module _ {Lexer : Type 0} (r : Renderers Lexer) (h : Handler) where
  abbrev View : Type 0
  View = Bytes × Bool × Bytes

  abbrev Safe : Bytes → View → Type 0
  Safe s b = IsSafe r s b.0

  as_escaped :
      (s : Bytes) (k : Bool) (l : Bytes) (b : View)
      → ◌≡◌ {A = Result PageError View} (ok (html_escape s, k, l)) (ok b)
      → Safe s b
  as_escaped s k l b e = subst (Safe s) (ap (ok_or b) e) escaped

  code_body-IsSafe : (o : Option Lexer) (s : Bytes) (b : View) → code_body r h o s ≡ ok b → Safe s b
  code_body-IsSafe none s b e = as_escaped s false [] b e
  code_body-IsSafe (some l) s b e = elim (Bool-cases (str_eq h.render (codes "server"))) [
    | inl c ↦
        let (out, p, e') = >>=-eq-ok (or_render_failed (r.highlight l s)) _ (rw c at e) in
        subst (Safe s) (ap (ok_or b) e')
          (highlighted l (or_render_failed-ok r (r.highlight l s) out p))
    | inr c ↦ elim (Bool-cases (str_eq h.render (codes "client"))) [
      | inl d ↦ as_escaped s false (lower (r.lexer_name l)) b (rw (c, d) at e)
      | inr d ↦ as_escaped s false [] b (rw (c, d) at e)
    ]
  ]

  markdown_body-IsSafe : (s out : Bytes) → markdown_body r h s ≡ ok out → IsSafe r s out
  markdown_body-IsSafe s out e = elim (Bool-cases (str_eq h.render (codes "server"))) [
    | inl c ↦ from_markdown (or_render_failed-ok r (render_markdown_server r s) out (rw c at e))
    | inr c ↦ subst (IsSafe r s) (ap (ok_or out) (rw c at e)) escaped
  ]

  body_of-IsSafe :
      (path s : Bytes) (b : Bytes × Bool × Bytes) → body_of r h path s ≡ ok b → IsSafe r s b.0
  body_of-IsSafe path s b e = elim (Bool-cases (is_markdown path)) [
    | inl c ↦
        let (out, p, e') = >>=-eq-ok (markdown_body r h s) _ (rw c at e) in
        subst (Safe s) (ap (ok_or b) e') (markdown_body-IsSafe s out p)
    | inr c ↦ code_body-IsSafe (resolve_blob_lexer r path s) s b (rw c at e)
  ]

  abbrev view_or : BlobView → Page → BlobView
  view_or v (blob_page w) = w
  view_or v p = v

  abbrev page_or : Page → Response → Page
  page_or p (html w) = w
  page_or p a = p

  -- the view that blob_of builds
  blob_of-IsViewOf :
      (name dir ref path : Bytes) (v : BlobView)
      → blob_of r h name dir ref path ≡ ok (blob_page v)
      → (content : Bytes) × (from_git (blob_at h.git dir ref path) ≡ ok content)
        × (path ≡ v.path)
        × IsViewOf r content v
  blob_of-IsViewOf name dir ref path v e =
      let (content, c, e') = >>=-eq-ok (from_git (blob_at h.git dir ref path)) _ e in
      let (view, w, e'') = >>=-eq-ok (body_of r h path (shown content)) _ e' in
      let same = ap (λ x. view_or v (ok_or (blob_page v) x)) e'' in
      (
        content,
        c,
        ap (λ x. x.path) same,
        record {
          text = sym (ap (λ x. x.raw_markdown) same) ∙ shown-take content;
          cut_off = sym (ap (λ x. x.truncated) same);
          safe =
              subst (λ x. IsSafe r x.raw_markdown x.body) same
                (body_of-IsSafe path (shown content) view w);
        },
      )

  raw-attachment :
      (name : Bytes) (q : Query) (dir path content : Bytes)
      → from_git (repo_dir h.absolute h.eval_symlinks h.repos_root name) ≡ ok dir
      → from_git (clean_repo_path q.path) ≡ ok path
      → from_git (blob_at h.git dir (ref_or_default r h dir q.ref) path) ≡ ok content
      → handle_raw r h name q none false ≡ attachment (file_base path) content
  unfolding handle_raw render_action
  raw-attachment name q dir path content d p c = rw (d, p, c) refl

  -- Where the page of a file is answered, the download of the same request is the whole file under its
  -- last name, and the page shows its first 256 KiB, says whether that is less than the file, and has
  -- as HTML the escaped text or what a renderer made of it.
  pub handle_blob-raw :
      (name : Bytes) (q : Query) (v : BlobView)
      → handle_blob r h name q none false ≡ html (blob_page v)
      → (content : Bytes) × (handle_raw r h name q none false
          ≡ attachment (file_base v.path) content)
        × IsViewOf r content v
  unfolding handle_blob handle_raw render_action
  handle_blob-raw name q v e =
      let (dir, d, e1) =
        respond-html _ (from_git (repo_dir h.absolute h.eval_symlinks h.repos_root name))
          (blob_page v) e in
      let (path, p, e2) = respond-html _ (from_git (clean_repo_path q.path)) (blob_page v) e1 in
      elim (Bool-cases (is_nil path)) [
        | inl n ↦ cc (rw n at e2)
        | inr n ↦
            let (page, b, e3) = respond-html html _ (blob_page v) (rw n at e2) in
            let (content, c, same, view) =
              blob_of-IsViewOf name dir (ref_or_default r h dir q.ref) path v
                (b ∙ ap (λ x. ok (page_or (blob_page v) x)) e3) in
            (
              content,
              raw-attachment name q dir path content d p c
                  ∙ ap (λ x. attachment (file_base x) content) same,
              view,
            )
      ]
