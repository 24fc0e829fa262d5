-- ===== src/Http/Router/Routes.antt =====
-- `HttpRouter::Route` and `AddHttpHandler` of Src/Common/Http/HttpRouter.cpp: which handler answers.
use game_project_demo.Common.{
  not_equal, and_assoc, subst, ℕ, ◌≡◌, ◌≢◌, refl, sym, ◌∙◌, ap, ap₂, Bool, true, false, ◌&&◌,
  Bool-cases, inl, inr, Option, none, some, List, [], ◌∷◌, ◌++◌, All, Bytes, same_text,
  same_text_sound, if◌then◌else◌, ◌==◌, cons-injective, arith,
}
use game_project_demo.Http.{
  HttpMethod, unknown, delete, get, head, post, put, patch, connect, options, http_method_to_string,
}
use game_project_demo.Http.Request.{HttpRequest, get_method, get_path}
use game_project_demo.Http.Response.{HttpResponse}
use game_project_demo.Http.Router.{
  HttpRouter, HttpHandlerFunc, new_router, find_handler, has_key, whole_name, emplace_handler,
  add_http_handler, call_handler, route,
}

abbrev pub NotSpace : ℕ → Type 0
NotSpace c = c ≢ b' '

-- Two keys are the same only if the methods and the paths are, since no method has a space in it.
whole_name-injective :
    (m n p q : Bytes)
    → All NotSpace m
    → All NotSpace n
    → whole_name m p ≡ whole_name n q
    → (m ≡ n) × (p ≡ q)
unfolding whole_name
whole_name-injective [] [] p q h k e = (refl, (cons-injective e).1)
whole_name-injective [] (b ∷ n) p q h (k, ks) e = absurd (k (sym ((cons-injective e).0)))
whole_name-injective (a ∷ m) [] p q (h, hs) k e = absurd (h ((cons-injective e).0))
whole_name-injective (a ∷ m) (b ∷ n) p q (h, hs) (k, ks) e =
    let (c, t) = cons-injective e in
    let (mn, pq) = whole_name-injective m n p q hs ks t in (ap₂ ◌∷◌ c mn, pq)

no_space : Bytes → Bool
no_space [] = true
no_space (c ∷ cs) = if c == b' ' then false else no_space cs

no_space-NotSpace : (s : Bytes) → no_space s ≡ true → All NotSpace s
unfolding no_space
no_space-NotSpace [] h = tt
no_space-NotSpace (c ∷ cs) h = (ground arith, no_space-NotSpace cs (ground arith))

pub method_no_space : (m : HttpMethod) → All NotSpace (http_method_to_string m)
unfolding http_method_to_string no_space
method_no_space unknown = no_space-NotSpace (http_method_to_string HttpMethod.unknown) refl
method_no_space delete = no_space-NotSpace (http_method_to_string delete) refl
method_no_space get = no_space-NotSpace (http_method_to_string get) refl
method_no_space head = no_space-NotSpace (http_method_to_string head) refl
method_no_space post = no_space-NotSpace (http_method_to_string post) refl
method_no_space put = no_space-NotSpace (http_method_to_string put) refl
method_no_space patch = no_space-NotSpace (http_method_to_string patch) refl
method_no_space connect = no_space-NotSpace (http_method_to_string connect) refl
method_no_space options = no_space-NotSpace (http_method_to_string options) refl

abbrev pub Registration : Type 0
Registration = HttpMethod × Bytes × HttpHandlerFunc

unfoldable pub add_all : List Registration → HttpRouter → HttpRouter
add_all [] r = r
add_all ((m, p, h) ∷ regs) r = add_all regs (add_http_handler m p h r)

-- The first registration of a method and a path.
unfoldable pub first_of : Bytes → Bytes → List Registration → Option HttpHandlerFunc
first_of method path [] = none
first_of method path ((m, p, h) ∷ regs) =
    if same_text (http_method_to_string m) method && same_text p path
    then some h
    else first_of method path regs

key_test :
    (m n p q : Bytes)
    → All NotSpace m
    → All NotSpace n
    → same_text (whole_name m p) (whole_name n q) ≡ (same_text m n && same_text p q)
unfolding whole_name same_text
key_test [] [] p q h k = refl
key_test [] (b ∷ n) p q h (k, _) = rw (not_equal b' ' b (λ e. k (sym e))) refl
key_test (a ∷ m) [] p q (h, _) k = rw (not_equal a b' ' h) refl
key_test (a ∷ m) (b ∷ n) p q (_, h) (_, k) =
    ap (λ t. (a == b) && t) (key_test m n p q h k)
    ∙ and_assoc (a == b) (same_text m n) (same_text p q)

unfoldable or_else : Option HttpHandlerFunc → Option HttpHandlerFunc → Option HttpHandlerFunc
or_else (some a) o = some a
or_else none o = o

find_handler-append :
    (key : Bytes) (hs ks : List (Bytes × HttpHandlerFunc))
    → find_handler key (hs ++ ks) ≡ or_else (find_handler key hs) (find_handler key ks)
unfolding find_handler or_else
find_handler-append key [] ks = refl
find_handler-append key ((k, h) ∷ hs) ks = elim (Bool-cases (same_text k key)) [
  | inl e ↦ rw e refl
  | inr e ↦ rw (e, find_handler-append key hs ks) refl
]

abbrev pub keys_of : List (Bytes × HttpHandlerFunc) → List Bytes
keys_of [] = []
keys_of ((k, h) ∷ hs) = k ∷ keys_of hs

keys_of-append :
    (hs ks : List (Bytes × HttpHandlerFunc)) → keys_of (hs ++ ks) ≡ keys_of hs ++ keys_of ks
keys_of-append [] ks = refl
keys_of-append ((k, h) ∷ hs) ks = ap (◌∷◌ k) (keys_of-append hs ks)

has_key-found :
    (key : Bytes) (hs : List (Bytes × HttpHandlerFunc)) (o : Option HttpHandlerFunc)
    → has_key key (keys_of hs) ≡ true
    → or_else (find_handler key hs) o ≡ find_handler key hs
unfolding has_key find_handler or_else
has_key-found key [] o e = cc
has_key-found key ((k, h) ∷ hs) o e = elim (Bool-cases (same_text k key)) [
  | inl t ↦ rw t refl
  | inr t ↦ rw t (has_key-found key hs o (rw t at e))
]

or_else-none : (o : Option HttpHandlerFunc) → or_else o none ≡ o
unfolding or_else
or_else-none none = refl
or_else-none (some h) = refl

-- A key that is there keeps its handler.
or_else-known :
    (wanted key : Bytes) (h : HttpHandlerFunc) (hs : List (Bytes × HttpHandlerFunc))
    → has_key key (keys_of hs) ≡ true
    → or_else (find_handler wanted hs) (find_handler wanted ((key, h) ∷ []))
      ≡ find_handler wanted hs
unfolding find_handler
or_else-known wanted key h hs e = elim (Bool-cases (same_text key wanted)) [
  | inl t ↦
      has_key-found wanted hs (find_handler wanted ((key, h) ∷ []))
        (subst (λ k. has_key k (keys_of hs) ≡ true) (same_text_sound key wanted t) e)
  | inr t ↦ rw t (or_else-none (find_handler wanted hs))
]

-- The keys of the handlers are the paths' keys.
abbrev pub Agree : HttpRouter → Type 0
Agree r = r.path_keys ≡ keys_of r.http_handlers

emplace_handler-Agree :
    (key : Bytes) (h : HttpHandlerFunc) (r : HttpRouter) → Agree r → Agree (emplace_handler key h r)
unfolding emplace_handler
emplace_handler-Agree key h r e = elim (Bool-cases (has_key key r.path_keys)) [
  | inl t ↦ rw t e
  | inr t ↦
      rw t (ap (λ ks. ks ++ key ∷ []) e ∙ sym (keys_of-append r.http_handlers ((key, h) ∷ [])))
]

find_handler-emplace_handler :
    (wanted key : Bytes) (h : HttpHandlerFunc) (r : HttpRouter)
    → Agree r
    → find_handler wanted (emplace_handler key h r).http_handlers
      ≡ or_else (find_handler wanted r.http_handlers) (find_handler wanted ((key, h) ∷ []))
unfolding emplace_handler
find_handler-emplace_handler wanted key h r e = elim (Bool-cases (has_key key r.path_keys)) [
  | inl t ↦
      rw t
        (sym (or_else-known wanted key h r.http_handlers (subst (λ ks. has_key key ks ≡ true) e t)))
  | inr t ↦ rw t (find_handler-append wanted r.http_handlers ((key, h) ∷ []))
]

or_else_assoc : (a b c : Option HttpHandlerFunc) → or_else (or_else a b) c ≡ or_else a (or_else b c)
unfolding or_else
or_else_assoc none b c = refl
or_else_assoc (some h) b c = refl

first_of-cons :
    (m : HttpMethod) (p : Bytes) (h : HttpHandlerFunc) (regs : List Registration)
    (method path : Bytes)
    → All NotSpace method
    → or_else
        (find_handler (whole_name method path) ((whole_name (http_method_to_string m) p, h) ∷ []))
        (first_of method path regs)
      ≡ first_of method path ((m, p, h) ∷ regs)
unfolding find_handler or_else first_of
first_of-cons m p h regs method path free =
    let test = key_test (http_method_to_string m) method p path (method_no_space m) free in
    elim (Bool-cases (same_text (http_method_to_string m) method && same_text p path)) [
      | inl e ↦ rw (test, e) refl
      | inr e ↦ rw (test, e) refl
    ]

find_handler-add_all :
    (regs : List Registration) (r : HttpRouter) (method path : Bytes)
    → Agree r
    → All NotSpace method
    → find_handler (whole_name method path) (add_all regs r).http_handlers
      ≡ or_else (find_handler (whole_name method path) r.http_handlers) (first_of method path regs)
unfolding add_all add_http_handler first_of
find_handler-add_all [] r method path a free =
    sym (or_else-none (find_handler (whole_name method path) r.http_handlers))
find_handler-add_all ((m, p, h) ∷ regs) r method path a free =
    let wanted = whole_name method path in
    let key = whole_name (http_method_to_string m) p in
    find_handler-add_all regs (emplace_handler key h r) method path
      (emplace_handler-Agree key h r a) free
    ∙ ap (λ o. or_else o (first_of method path regs))
        (find_handler-emplace_handler wanted key h r a)
    ∙ or_else_assoc (find_handler wanted r.http_handlers) (find_handler wanted ((key, h) ∷ []))
        (first_of method path regs)
    ∙ ap (or_else (find_handler wanted r.http_handlers)) (first_of-cons m p h regs method path free)

-- Handlers registered in order, on a router that has none: a request is answered by the first of
-- them that was registered for its method and its path, and with 404 if there is none. A later
-- registration of the same method and path is without effect. A request's method has no space in it.
pub route-add_all :
    (regs : List Registration) (req : HttpRequest) (resp : HttpResponse)
    → All NotSpace (get_method req)
    → route (add_all regs new_router) req resp
      ≡ call_handler (first_of (get_method req) (get_path req) regs) req resp
unfolding route new_router find_handler or_else
route-add_all regs req resp h =
    ap (λ o. call_handler o req resp)
      (find_handler-add_all regs new_router (get_method req) (get_path req) refl h)
