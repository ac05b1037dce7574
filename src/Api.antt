-- ===== src/Api.antt =====
-- api/config/v1alpha1: the configuration document. A pointer field is an Option, a
-- `runtime.RawExtension` is its raw JSON text, a string-typed enumeration is its text.
pub mod Errors
pub mod Prerequisites
pub mod Packs
pub mod Validation
pub mod Defaults
mod Tests
use cube_idp.Base.{Option, List, Text}

pub record ClusterSpec : Type 0 where
  pub provider : Text
  pub for_provider : Option Text

pub record EngineSource : Type 0 where
  pub kind : Text
  pub url : Text
  pub ref : Text
  pub path : Text
  pub interval : Text

pub record EngineSpec : Type 0 where
  pub provider : Text
  pub version : Text
  pub source : Option EngineSource

pub record GatewaySpec : Type 0 where
  pub domain : Text

pub record CaSpec : Type 0 where
  pub provider : Text

pub record PrerequisiteSpec : Type 0 where
  pub name : Text
  pub ref : Text

pub record ExternalManifest : Type 0 where
  pub ref : Text
  pub manifest : Option Text
  pub lifecycle : Text

pub record PackSpec : Type 0 where
  pub id : Text
  pub pack_ref : Text
  pub values_ref : Text
  pub values : Option Text
  pub external_manifests : List ExternalManifest
  pub depends_on : List Text

pub record ConfigSpec : Type 0 where
  pub cluster : Option ClusterSpec
  pub engine : Option EngineSpec
  pub gateway : Option GatewaySpec
  pub ca : Option CaSpec
  pub prerequisites : List PrerequisiteSpec
  pub packs : List PackSpec

pub record Config : Type 0 where
  pub name : Text
  pub spec : ConfigSpec
