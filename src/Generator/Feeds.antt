-- ===== src/Generator/Feeds.antt =====
-- The structures of github.com/pdok/atom-generator/feeds that the mapper fills, with the zero
-- values that Go gives to the fields a literal leaves out.
use atom_operator.Prelude.{String, Option, none, List, []}

pub record Link : Type 0 where
  pub rel : String
  pub href : String
  pub data_href : Option String
  pub title : String
  pub content_type : String
  pub hreflang : Option String
  pub time : Option String
  pub bbox : Option String

abbrev pub no_link : Link
no_link = record {
  rel = "";
  href = "";
  data_href = none;
  title = "";
  content_type = "";
  hreflang = none;
  time = none;
  bbox = none;
}

pub record Category : Type 0 where
  pub term : String
  pub label : String

pub record FeedAuthor : Type 0 where
  pub name : String
  pub email : String

pub record FeedEntry : Type 0 where
  pub id : String
  pub title : String
  pub content : String
  pub summary : String
  pub rights : String
  pub updated : Option String
  pub polygon : String
  pub link : List Link
  pub category : List Category
  pub spatial_dataset_identifier_code : Option String
  pub spatial_dataset_identifier_namespace : Option String

abbrev pub no_entry : FeedEntry
no_entry = record {
  id = "";
  title = "";
  content = "";
  summary = "";
  rights = "";
  updated = none;
  polygon = "";
  link = [];
  category = [];
  spatial_dataset_identifier_code = none;
  spatial_dataset_identifier_namespace = none;
}

pub record Feed : Type 0 where
  pub xml_stylesheet : Option String
  pub xmlns : String
  pub georss : String
  pub inspire_dls : String
  pub lang : Option String
  pub id : String
  pub title : String
  pub subtitle : String
  pub link : List Link
  pub rights : String
  pub author : FeedAuthor
  pub entry : List FeedEntry

pub record Feeds : Type 0 where
  pub feeds : List Feed
