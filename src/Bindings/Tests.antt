-- ===== src/Bindings/Tests.antt =====
-- Values that go to Python and back, at concrete inputs.
use macdetect.Base.{Text, List, [], ◌∷◌, false, some, text, str_eq, ◌≡◌, refl}
use macdetect.Value.{Value, value, nil, cons, key}
use macdetect.Bindings.{c_str, value_to_py_object, py_object_to_value}
use macdetect.Bindings.RoundTrip.{
  IsChain, py_object_to_value-value_to_py_object, py_object_to_value_two,
}

abbrev device : Value
device = value (text "device-name") (text "eth0") nil

abbrev request : Value
request = value (text "request") (text "enable-stream") (cons device nil)

abbrev address : Value
address = value (text "mac") (text "02:00:00:00:00:01") nil

device-IsChain : IsChain device
unfolding text c_str
device-IsChain = (refl, refl)

request-IsChain : IsChain request
unfolding text c_str
request-IsChain = (refl, refl, (refl, refl))

address-IsChain : IsChain address
unfolding text c_str
address-IsChain = (refl, refl)

py_object_to_value-value_to_py_object_example :
    py_object_to_value (λ keys. keys) (value_to_py_object request) ≡ some request
py_object_to_value-value_to_py_object_example =
    py_object_to_value-value_to_py_object (λ keys. keys) request (λ k. refl) request-IsChain

-- Python lists the second of two keys first.
abbrev backwards : List Text → List Text
backwards (j ∷ k ∷ []) = k ∷ j ∷ []
backwards ks = ks

py_object_to_value_two_example :
    py_object_to_value backwards
      (value_to_py_object (value (text "info") (text "hello") (cons device (cons address nil))))
    ≡ some (value (text "info") (text "hello") (cons address (cons address nil)))
unfolding text c_str str_eq key
py_object_to_value_two_example =
    py_object_to_value_two backwards (text "info") (text "hello") device address false (λ k. refl)
      refl refl device-IsChain address-IsChain refl refl
