-- ===== src/Usbip/Descriptors/Lengths.antt =====
-- The lengths that the configuration of `Device` in src/usbip.rs announces.
use f2ido.Prelude.{
  ℕ, ◌-◌, ◌/◌, ◌%◌, ◌≤◌, ◌≡◌, refl, sym, subst, List, [], ◌∷◌, ◌++◌, arith, leb_iff, take,
  replicate, length, length-append, length-take,
}
use f2ido.Outcome.{Outcome, ok, ◌>>◌}
use f2ido.Hid.{report_descriptor}
use f2ido.Usbip.Descriptors.{
  Bindings, Sink, total_length, config_descriptor, interface_descriptor, hid_descriptor,
  endpoint_descriptor, write_endpoint, get_configuration,
}

module _ (b : Bindings) where
  write_endpoint-take :
      (number dir : ℕ) (sink : Sink)
      → b.usb_dt_endpoint_size ≤ 9
      → write_endpoint b number dir sink
        ≡ ok tt (sink ++ take b.usb_dt_endpoint_size (endpoint_descriptor b number dir))
  unfolding write_endpoint endpoint_descriptor
  write_endpoint-take number dir sink h =
      rw small (rw ((leb_iff n 9).1 h) (rw ((leb_iff 0 n).1 (omega arith)) (rw from_start refl)))
    where
      n : ℕ
      n = b.usb_dt_endpoint_size

      small : n % 256 ≡ n
      small = omega arith

      from_start : n - 0 ≡ n
      from_start = omega arith

  abbrev endpoints : Sink → Sink
  endpoints sink =
      (sink ++ take b.usb_dt_endpoint_size (endpoint_descriptor b 1 b.usb_dir_in))
      ++ take b.usb_dt_endpoint_size (endpoint_descriptor b 2 b.usb_dir_out)

  write_endpoints :
      (sink : Sink)
      → b.usb_dt_endpoint_size ≤ 9
      → (write_endpoint b 1 b.usb_dir_in >> write_endpoint b 2 b.usb_dir_out) sink
        ≡ ok tt (endpoints sink)
  write_endpoints sink h =
      subst
        (λ (o : Outcome Sink (Unit {0})).
          ((λ (_ : Sink). o) >> write_endpoint b 2 b.usb_dir_out) sink ≡ ok tt (endpoints sink))
        (sym (write_endpoint-take 1 b.usb_dir_in sink h)) (write_endpoint-take 2 b.usb_dir_out _ h)

  length-endpoint :
      (number dir : ℕ)
      → b.usb_dt_endpoint_size ≤ 9
      → length (take b.usb_dt_endpoint_size (endpoint_descriptor b number dir))
        ≡ b.usb_dt_endpoint_size
  unfolding endpoint_descriptor
  length-endpoint number dir h =
      omega (arith, length-take b.usb_dt_endpoint_size (endpoint_descriptor b number dir))

  -- What stands in front of the endpoints; the report descriptor has 30 bytes.
  abbrev front : Sink
  front = config_descriptor b ++ interface_descriptor b ++ hid_descriptor b (replicate 30 0)

  -- When an endpoint descriptor has at most 9 bytes, the configuration is written, and has as many
  -- bytes as it announces in its third and fourth.
  pub get_configuration-total_length :
      b.usb_dt_endpoint_size ≤ 9
      → (xs : List ℕ) × (get_configuration b [] ≡ ok tt xs)
        × (length xs ≡ total_length b)
        × (take 4 xs ≡ 9 ∷ 2 ∷ (length xs % 256) ∷ (length xs / 256 % 256) ∷ [])
  unfolding get_configuration report_descriptor config_descriptor interface_descriptor
      hid_descriptor
  get_configuration-total_length h =
      (endpoints front, write_endpoints front h, total, rw total refl)
    where
      total : length (endpoints front) ≡ total_length b
      total = omega (
        arith,
        length-append (front ++ take b.usb_dt_endpoint_size (endpoint_descriptor b 1 b.usb_dir_in))
            (take b.usb_dt_endpoint_size (endpoint_descriptor b 2 b.usb_dir_out)),
        length-append front (take b.usb_dt_endpoint_size (endpoint_descriptor b 1 b.usb_dir_in)),
        length-endpoint 1 b.usb_dir_in h,
        length-endpoint 2 b.usb_dir_out h,
      )
