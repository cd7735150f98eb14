-- ===== src/Position/Frames/Quaternion.antt =====
-- Coordinates of the controller as transforms of ROS and back: src/RosMotoPlusConversionUtils.c and
-- src/Quaternion_Conversion.c.
use motoros.Prelude.{ℤ, pos, abs, ◌==◌, if◌then◌else◌}
use motoros.Data.{Double, Coord}
use motoros.Fpu.{Fpu}

pub record Quaternion : Type 0 where
  pub qx : Double
  pub qy : Double
  pub qz : Double
  pub qw : Double

-- geometry_msgs/Transform; a Pose has the same fields.
pub record Transform : Type 0 where
  pub tx : Double
  pub ty : Double
  pub tz : Double
  pub rotation : Quaternion

module _ (fpu : Fpu) where
  open fpu use {add, sub, mul, div, neg, lt, of_int, to_int, millionth, ten_thousandth}
  open fpu use {rad_per_degree, degrees_per_rad, sin, cos, asin, atan2}

  abbrev pub half_angle : ℤ → Double
  half_angle z = div (mul (mul (of_int z) rad_per_degree) ten_thousandth) (of_int (pos 2))

  -- QuatConversion_MpCoordOrient_To_GeomMsgsQuaternion
  unfoldable pub to_quaternion : ℤ → ℤ → ℤ → Quaternion
  to_quaternion rx ry rz =
      let c1 = cos (half_angle rx) in
      let c2 = cos (half_angle ry) in
      let c3 = cos (half_angle rz) in
      let s1 = sin (half_angle rx) in
      let s2 = sin (half_angle ry) in
      let s3 = sin (half_angle rz) in
      record {
        qx = sub (mul (mul s1 c2) c3) (mul (mul c1 s2) s3);
        qy = add (mul (mul c1 s2) c3) (mul (mul s1 c2) s3);
        qz = sub (mul (mul c1 c2) s3) (mul (mul s1 s2) c3);
        qw = add (mul (mul c1 c2) c3) (mul (mul s1 s2) s3);
      }

  -- The macros `max` and `min`
  abbrev pub greater : Double → Double → Double
  greater x y = if lt x y then y else x

  abbrev pub smaller : Double → Double → Double
  smaller x y = if lt x y then x else y

  -- QuatConversion_clamp
  unfoldable pub clamp : Double → Double → Double → Double
  clamp value lo hi = greater lo (smaller hi value)

  abbrev pub to_tenths : Double → ℤ
  to_tenths a = to_int (mul (mul a degrees_per_rad) (of_int (pos 10000)))

  -- QuatConversion_GeomMsgsQuaternion_To_MpCoordOrient: the angles about x, y and z. `abs` takes an
  -- int, so the test compares the whole part of m31; below 0.9999999 only 0 is.
  unfoldable pub to_orientation : Quaternion → ℤ × ℤ × ℤ
  unfolding clamp
  to_orientation q =
      let one = of_int (pos 1) in
      let x2 = add q.qx q.qx in
      let y2 = add q.qy q.qy in
      let z2 = add q.qz q.qz in
      let xx = mul q.qx x2 in
      let xy = mul q.qx y2 in
      let xz = mul q.qx z2 in
      let yy = mul q.qy y2 in
      let yz = mul q.qy z2 in
      let zz = mul q.qz z2 in
      let wx = mul q.qw x2 in
      let wy = mul q.qw y2 in
      let wz = mul q.qw z2 in
      let m11 = mul (sub one (add yy zz)) one in
      let m21 = mul (add xy wz) one in
      let m31 = mul (sub xz wy) one in
      let m12 = mul (sub xy wz) one in
      let m22 = mul (sub one (add xx zz)) one in
      let m32 = mul (add yz wx) one in
      let m33 = mul (sub one (add xx yy)) one in
      let ry = to_tenths (asin (neg (clamp m31 (neg one) one))) in
      if abs (to_int m31) == 0
      then (to_tenths (atan2 m32 m33), ry, to_tenths (atan2 m21 m11))
      else (pos 0, ry, to_tenths (atan2 (neg m12) m22))

  -- Ros_MpCoord_To_GeomMsgsTransform and Ros_MpCoord_To_GeomMsgsPose
  unfoldable pub to_transform : Coord → Transform
  unfolding to_quaternion
  to_transform c = record {
    tx = mul (of_int c.x) millionth;
    ty = mul (of_int c.y) millionth;
    tz = mul (of_int c.z) millionth;
    rotation = to_quaternion c.rx c.ry c.rz;
  }
