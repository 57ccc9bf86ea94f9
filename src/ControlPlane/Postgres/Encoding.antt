-- ===== src/ControlPlane/Postgres/Encoding.antt =====
-- Encodings of the parts of a node as texts.
use compute_backend.Prelude.{
  ℕ, zero, suc, ◌≡◌, refl, Bool, true, false, Option, none, some, List, [], ◌∷◌, ℤ, pos, negsuc,
  Time, length,
}
use compute_backend.Strings.{Text}
use compute_backend.ControlPlane.Types.{
  NodeStatus, pending, provisioning, ready, error, other, ModelAssignment,
}

-- An encoding in front of a text.
pub record Encoding (A : Type 0) : Type 0 where
  pub enc : A → Text → Text
  pub dec : Text → A × Text
  pub lem : (a : A) (t : Text) → dec (enc a t) ≡ (a, t)

abbrev pub dec_number : Text → ℕ × Text
dec_number [] = (0, [])
dec_number (n ∷ t) = (n, t)

abbrev pub number : Encoding ℕ
number = record { enc = λ n t. n ∷ t; dec = dec_number; lem = λ n t. refl }

module _ {A B : Type 0} (ea : Encoding A) (eb : Encoding B) where
  abbrev pub dec_pair : Text → (A × B) × Text
  dec_pair t = let (a, u) = ea.dec t in let (b, v) = eb.dec u in ((a, b), v)

  pub dec_pair_lem : (a : A) (b : B) (t : Text) → dec_pair (ea.enc a (eb.enc b t)) ≡ ((a, b), t)
  dec_pair_lem a b t = rw (ea.lem a (eb.enc b t), eb.lem b t) refl

  abbrev pub pair : Encoding (A × B)
  pair = record {
    enc = λ p t. ea.enc p.0 (eb.enc p.1 t);
    dec = dec_pair;
    lem = λ p t. dec_pair_lem p.0 p.1 t;
  }

module _ {A B : Type 0} (to : A → B) (from : B → A) (h : (a : A) → from (to a) ≡ a)
    (eb : Encoding B) where
  abbrev pub along : Encoding A
  along = record {
    enc = λ a t. eb.enc (to a) t;
    dec = λ t. (from (eb.dec t).0, (eb.dec t).1);
    lem = λ a t. rw (eb.lem (to a) t) (λ i. (h a i, t));
  }

module _ {A : Type 0} (ea : Encoding A) where
  pub enc_items : List A → Text → Text
  enc_items [] t = t
  enc_items (a ∷ xs) t = ea.enc a (enc_items xs t)

  pub dec_items : ℕ → Text → List A × Text
  dec_items zero t = ([], t)
  dec_items (suc n) t = let (a, u) = ea.dec t in let (xs, v) = dec_items n u in (a ∷ xs, v)

  pub items_lem : (xs : List A) (t : Text) → dec_items (length xs) (enc_items xs t) ≡ (xs, t)
  unfolding enc_items dec_items
  items_lem [] t = refl
  items_lem (a ∷ xs) t = rw (ea.lem a (enc_items xs t), items_lem xs t) refl

  abbrev pub list_of : Encoding (List A)
  list_of = record {
    enc = λ xs t. length xs ∷ enc_items xs t;
    dec = λ t. dec_items (dec_number t).0 (dec_number t).1;
    lem = λ xs t. items_lem xs t;
  }

abbrev pub text_encoding : Encoding Text
text_encoding = list_of number

pub bool_code : Bool → ℕ
bool_code false = 0
bool_code true = 1

pub code_bool : ℕ → Bool
code_bool zero = false
code_bool (suc n) = true

pub code-bool_lem : (b : Bool) → code_bool (bool_code b) ≡ b
unfolding bool_code code_bool
code-bool_lem false = refl
code-bool_lem true = refl

abbrev pub bool : Encoding Bool
bool = along bool_code code_bool code-bool_lem number

pub int_code : ℤ → ℕ × ℕ
int_code (pos n) = (0, n)
int_code (negsuc n) = (1, n)

pub code_int : ℕ × ℕ → ℤ
code_int (zero, n) = pos n
code_int (suc m, n) = negsuc n

pub code-int_lem : (z : ℤ) → code_int (int_code z) ≡ z
unfolding int_code code_int
code-int_lem (pos n) = refl
code-int_lem (negsuc n) = refl

abbrev pub integer : Encoding ℤ
integer = along int_code code_int code-int_lem (pair number number)

pub option_code : Option Time → List ℕ
option_code none = []
option_code (some t) = t ∷ []

pub code_option : List ℕ → Option Time
code_option [] = none
code_option (t ∷ ts) = some t

pub code-option_lem : (o : Option Time) → code_option (option_code o) ≡ o
unfolding option_code code_option
code-option_lem none = refl
code-option_lem (some t) = refl

abbrev pub optional_time : Encoding (Option Time)
optional_time = along option_code code_option code-option_lem text_encoding

pub status_code : NodeStatus → List ℕ
status_code pending = []
status_code provisioning = 0 ∷ []
status_code ready = 1 ∷ []
status_code error = 2 ∷ []
status_code (other t) = 3 ∷ t

pub code_status : List ℕ → NodeStatus
code_status [] = pending
code_status (zero ∷ t) = provisioning
code_status (suc zero ∷ t) = ready
code_status (suc (suc zero) ∷ t) = error
code_status (suc (suc (suc n)) ∷ t) = other t

pub code-status_lem : (s : NodeStatus) → code_status (status_code s) ≡ s
unfolding status_code code_status
code-status_lem pending = refl
code-status_lem provisioning = refl
code-status_lem ready = refl
code-status_lem error = refl
code-status_lem (other t) = refl

abbrev pub status_encoding : Encoding NodeStatus
status_encoding = along status_code code_status code-status_lem text_encoding

abbrev pub assignment : Encoding ModelAssignment
assignment =
    along (λ a. (a.model_id, (a.version_id, (a.weights_uri, a.updated_at))))
      (λ p. record {
        model_id = p.0;
        version_id = p.1.0;
        weights_uri = p.1.1.0;
        updated_at = p.1.1.1;
      })
      (λ a. refl) (pair text_encoding (pair text_encoding (pair text_encoding number)))
